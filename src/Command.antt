-- ===== src/Command.antt =====
-- cli/command: the commands that change a running cluster, up to what they hand to a playbook.
pub mod Services
pub mod ScaleOut
pub mod Migrate
pub mod Checks
pub mod Plans
