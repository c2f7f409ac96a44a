-- ===== src/Topology/BuiltIn/Registered.antt =====
-- What the registration of the built-in variables leaves in the table of a service.
use curveadm.Prelude.{String, ◌≡◌, ◌⊎◌, false, some, List, [], ◌∷◌, lookup, ok}
use curveadm.Variables.{Variables, Variable}
use curveadm.Topology.DeployConfig.{DeployConfig}
use curveadm.Topology.BuiltIn.Peers.{HasPeers}
use curveadm.Topology.BuiltIn.{Var, get_value}

abbrev pub value_var : String → String → Variable
value_var n value = record { name = n; description = ""; value = value; resolved = false }

-- Every entry of the first table is in the second.
abbrev pub Keeps : Variables → Variables → Type 0
Keeps vars w = (j : String) (x : Variable) → lookup j vars.m ≡ some x → lookup j w.m ≡ some x

abbrev pub Some {ℓ} : {A : Type ℓ} → (A → Type 0) → List A → Type 0
Some P [] = ⊥
Some P (x ∷ xs) = P x ⊎ Some P xs

-- A limit with no entry covers every name, another one its entries.
abbrev pub Covers : List String → String → Type 0
Covers limit name = (limit ≡ []) ⊎ Some (λ l. l ≡ name) limit

-- The kind and the role of the service are among those that the variable is limited to.
abbrev pub Applies : DeployConfig → Var → Type 0
Applies dc v = Covers v.kind dc.kind × Covers v.role dc.role

-- The variable does not apply, or it is in the table with the value that it has for the service.
abbrev pub IsRegistered : String → List DeployConfig → DeployConfig → Variables → Var → Type 0
IsRegistered uuid dcs dc w v =
    (¬ Applies dc v)
    ⊎ (Applies dc v
        × ((value : String) × (get_value uuid v.name dcs dc ≡ ok value)
            × HasPeers v.name dcs value
            × (lookup v.name w.m ≡ some (value_var v.name value))))

-- Each entry of the second table is in the first, or a variable that applies has its name.
abbrev pub Comes : DeployConfig → List Var → Variables → Variables → Type 0
Comes dc vs vars w =
    (j : String) (x : Variable)
    → lookup j w.m ≡ some x
    → (lookup j vars.m ≡ some x) ⊎ Some (λ v. Applies dc v × (v.name ≡ j)) vs
