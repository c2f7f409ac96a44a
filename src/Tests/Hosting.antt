-- ===== src/Tests/Hosting.antt =====
-- Hosts and disks that a user configures.
use curveadm.Prelude.{
  ℕ, String, ◌≡◌, refl, ◌==◌, true, false, Option, some, List, [], ◌∷◌, Dict, All, Ends, ok, panic,
  pos, lookup, insert, concat, atoi, itoa,
}
use curveadm.Errno.{Fallible}
use curveadm.Config.Value.{Value, text, int, slice, nil, cons}
use curveadm.Config.ItemSet.{convert_slice, get_item}
use curveadm.Hosts.{Machine, parse_hosts}
use curveadm.Hosts.Address.{is_valid_address}
use curveadm.Hosts.Parsed.{IsHost, AreNew, parse_hosts-AreHosts}
use curveadm.Disks.{Document, parse_disks}
use curveadm.Disks.Parsed.{AreDisks, plain_document, parse_disks-AreDisks, convert_slice_panics}
use curveadm.Disks.Uri.{disk_uri_proto_fs_uuid, gen_disk_uri, get_disk_id, get_disk_id-gen_disk_uri}

abbrev machine : Machine
machine = record {
  current_user = "curve";
  home_dir = "/home/curve";
  path_exist = λ p. p == "/home/curve/.ssh/id_rsa";
  permissions = λ p. 384;
}

abbrev hosts : List (Dict Value)
hosts =
    (("host", text "server1") ∷ ("hostname", text "10.0.0.1") ∷ [])
    ∷ (("host", text "server2") ∷ ("hostname", text "10.0.0.2") ∷ ("ssh_port", int (pos 2222)) ∷ [])
    ∷ []

abbrev host_document : String → Option (Dict Value × List (Dict Value))
host_document s = some (("user", text "curve") ∷ [], hosts)

parse_hosts-AreHosts_example :
    Ends ⊥
      (λ hcs. All (IsHost machine) hcs × AreNew machine [] hcs)
      (parse_hosts machine host_document "hosts:")
parse_hosts-AreHosts_example = parse_hosts-AreHosts machine host_document "hosts:"

abbrev counted : {A : Type 0} → Fallible (List A) → ℕ
counted (ok (a ∷ b ∷ [])) = 2
counted _ = 0

two_hosts : counted (parse_hosts machine host_document "hosts:") ≡ 2
unfolding parse_hosts lookup insert get_item concat atoi itoa
two_hosts = refl

-- The expression is not anchored at its end.
address_with_a_tail : is_valid_address "10.0.0.1.example" ≡ true
unfolding is_valid_address
address_with_a_tail = refl

no_address : is_valid_address "10.0.0.256" ≡ false
unfolding is_valid_address
no_address = refl

abbrev global : Dict Value
global = ("host", slice (cons (text "server1") (cons (text "server2") nil))) ∷ []

abbrev disks : List (Dict Value)
disks =
    (("device", text "/dev/sda") ∷ ("mount", text "/data/0") ∷ [])
    ∷ (("device", text "/dev/sdb")
        ∷ ("mount", text "/data/1")
        ∷ ("exclude", slice (cons (text "server2") nil))
        ∷ [])
    ∷ []

abbrev disk_document : String → Option Document
disk_document s = some (some global, some disks)

parse_disks-AreDisks_example :
    Ends
      (plain_document (disk_document "disk:") ≡ false)
      AreDisks
      (parse_disks disk_document "disk:")
parse_disks-AreDisks_example = parse_disks-AreDisks disk_document "disk:"

two_disks : counted (parse_disks disk_document "disk:") ≡ 2
unfolding parse_disks lookup insert get_item
two_disks = refl

-- host: [server1, 2]
convert_slice_panics_example :
    convert_slice (slice (cons (text "server1") (cons (int (pos 2)) nil))) ≡ panic
convert_slice_panics_example = convert_slice_panics "server1" (cons (int (pos 2)) nil) refl

get_disk_id-gen_disk_uri_example :
    get_disk_id (gen_disk_uri disk_uri_proto_fs_uuid "8035a617") ≡ ok ("8035a617", "fs:uuid")
get_disk_id-gen_disk_uri_example = get_disk_id-gen_disk_uri "8035a617" refl
