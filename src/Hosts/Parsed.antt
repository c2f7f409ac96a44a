-- ===== src/Hosts/Parsed.antt =====
-- What the parsing of the hosts gives.
use curveadm.Prelude.{
  ℕ, suc, ◌≤◌, String, ◌≡◌, refl, sym, ap, ◌∙◌, subst, arith, ◌==◌, Bool, true, false, not, ◌⊎◌,
  inl, inr, Bool-cases, refuted, Option-cases, Option, none, some, List, [], ◌∷◌, Dict, All, nat_eq,
  ℤ, pos, ok, Ends, contains, eq_iff, bind-Ends, bind-Ends-eq, guard-Ends, Ends-map,
}
use curveadm.Errno.{
  host_field_missing, hostname_field_missing, hostname_requires_valid_ip_address,
  hosts_ssh_port_exceed_max_port_number, private_key_file_require_absolute_path,
  private_key_file_not_exist, private_key_file_require_600_permissions, duplicate_host,
}
use curveadm.Config.Value.{
  Value, Values, null, any, text, int, bool, dict, slice, texts, nil, cons, all_to_str,
}
use curveadm.Topology.Item.{as_string, as_int, as_bool}
use curveadm.Config.ItemSet.{CommItem, find_comm_item, item_build}
use curveadm.Config.Items.{
  AllFit, Fits, item_build-Ends, item_string-Ends, item_bool-Ends, item_int-positive,
  find_comm_item-Admits,
}
use curveadm.Hosts.Address.{is_valid_address}
use curveadm.Hosts.{
  Machine, HostConfig, host_itemset, config_host, config_hostname, config_ssh_port,
  config_private_key_file, config_forward_agent, fill_in, texts_in, convert_texts, build_known,
  build_host_item, build_host_items, get_host, get_hostname, get_ssh_port, get_private_key_file,
  get_forward_agent, is_port, is_absolute, check_key_file, check_host, build_host, new_host_config,
  parse_from, parse_hosts,
}

texts_in-Ends : (vs : Values) → Ends ⊥ (λ _. Unit) (texts_in vs)
unfolding texts_in
texts_in-Ends nil = tt
texts_in-Ends (cons v vs) = elim (Option-cases (all_to_str v)) [
  | inl e ↦ rw (texts_in, e) tt
  | inr (s, e) ↦
      rw (texts_in, e)
        (bind-Ends ⊥ (λ _. Unit) (λ _. Unit) (texts_in vs) _ (texts_in-Ends vs) (λ ss _. tt))
]

convert_texts-Ends : (v : Value) → Ends ⊥ (λ _. Unit) (convert_texts v)
unfolding convert_texts
convert_texts-Ends (slice vs) = texts_in-Ends vs
convert_texts-Ends null = tt
convert_texts-Ends any = tt
convert_texts-Ends (text s) = tt
convert_texts-Ends (int i) = tt
convert_texts-Ends (bool b) = tt
convert_texts-Ends (dict fs) = tt
convert_texts-Ends (texts ss) = tt

-- A host whose access is set up: the file of the key is only asked for when no agent is forwarded.
pub record IsHost (m : Machine) (hc : HostConfig) : Type 0 where
  pub host : (s : String) × (get_host m hc ≡ ok s) × ((s == "") ≡ false)
  pub hostname : (s : String) × (get_hostname m hc ≡ ok s) × (is_valid_address s ≡ true)
  pub port : (n : ℕ) × (get_ssh_port m hc ≡ ok (pos n)) × (1 ≤ n) × (n ≤ 65535)
  pub key_file :
      (s : String) × (b : Bool) × (get_private_key_file m hc ≡ ok s)
      × (is_absolute s ≡ true)
      × (get_forward_agent m hc ≡ ok b)
      × ((b ≡ true) ⊎ ((m.path_exist s ≡ true) × (m.permissions s ≡ 384)))

module _ (m : Machine) where
  build_known-Ends :
      (o : Option CommItem) (k : String) (v : Value) (hc : HostConfig)
      → Ends ⊥ (λ r. Fits (host_itemset m) k r.0) (build_known m o k v hc)
  unfolding build_known
  build_known-Ends none k v hc = tt
  build_known-Ends (some i) k v hc =
      bind-Ends ⊥ (Fits (host_itemset m) k) (λ r. Fits (host_itemset m) k r.0)
        (item_build (host_itemset m) k v) _
        (item_build-Ends ⊥ (host_itemset m) k v (
          find_comm_item-Admits ⊥ v (host_itemset m)
            (tt, (tt, (tt, (tt, (tt, (tt, (tt, (tt, tt)))))))) k))
        (λ w p. p)

  build_host_item-Ends :
      (k : String) (v : Value) (hc : HostConfig)
      → Ends ⊥ (λ r. Fits (host_itemset m) k r.0) (build_host_item m k v hc)
  unfolding build_host_item find_comm_item
  build_host_item-Ends k v hc = elim (Bool-cases (k == "labels")) [
    | inl e ↦ rw (e) (
        bind-Ends ⊥ (λ _. Unit) _ (convert_texts v) _ (convert_texts-Ends v)
          (λ ss _. subst (λ x. Fits (host_itemset m) x null) (sym ((eq_iff k "labels").0 e)) tt))
    | inr e ↦ elim (Bool-cases (k == "envs")) [
      | inl f ↦
          rw (e, f)
            (bind-Ends ⊥ (λ _. Unit) _ (convert_texts v) _ (convert_texts-Ends v)
              (λ ss _. subst (λ x. Fits (host_itemset m) x null) (sym ((eq_iff k "envs").0 f)) tt))
      | inr f ↦ rw (e, f) (build_known-Ends (find_comm_item k (host_itemset m)) k v hc)
    ]
  ]

  build_host_items-Ends :
      (config : Dict Value) (hc : HostConfig)
      → Ends ⊥ (λ r. AllFit (host_itemset m) r.0) (build_host_items m config hc)
  unfolding build_host_items
  build_host_items-Ends [] hc = tt
  build_host_items-Ends ((k, v) ∷ config) hc =
      bind-Ends ⊥ (λ r. Fits (host_itemset m) k r.0) _ (build_host_item m k v hc) _
        (build_host_item-Ends k v hc)
        (λ r p.
          bind-Ends ⊥ (λ r. AllFit (host_itemset m) r.0) _ (build_host_items m config r.1) _
            (build_host_items-Ends config r.1) (λ r' h. (p, h)))

  check_key_file-Ends :
      (b : Bool) (s : String)
      → Ends ⊥
          (λ _. (b ≡ true) ⊎ ((m.path_exist s ≡ true) × (m.permissions s ≡ 384)))
          (check_key_file m b s)
  check_key_file-Ends true s = inl refl
  check_key_file-Ends false s = guard-Ends ⊥ _ (m.path_exist s) private_key_file_not_exist _ (λ e.
      guard-Ends ⊥ _ (nat_eq (m.permissions s) 384) private_key_file_require_600_permissions _
        (λ f. inr (e, ground (arith, f))))

  port_bounds :
      (p : ℤ) (hc : HostConfig)
      → (n : ℕ) × (p ≡ pos (suc n))
      → is_port p ≡ true
      → get_ssh_port m hc ≡ ok p
      → (n : ℕ) × (get_ssh_port m hc ≡ ok (pos n)) × (1 ≤ n) × (n ≤ 65535)
  port_bounds p hc (n, e) b g =
      let q : is_port (pos (suc n)) ≡ true = (rw e at b) in
      (suc n, g ∙ ap ok e, omega arith, ground (arith, q))

  check_host-Ends :
      (hc : HostConfig)
      → AllFit (host_itemset m) hc.config
      → Ends ⊥ (λ _. IsHost m hc) (check_host m hc)
  unfolding check_host find_comm_item as_string as_int as_bool
  check_host-Ends hc h =
      let items = host_itemset m in
      bind-Ends-eq ⊥ (λ _. Unit) _ (get_private_key_file m hc) _
        (item_string-Ends ⊥ items hc.config h (config_private_key_file m) refl refl tt)
        (λ file g1 _.
          bind-Ends-eq ⊥ (λ _. Unit) _ (get_host m hc) _
            (item_string-Ends ⊥ items hc.config h config_host refl refl tt)
            (λ host g2 _. guard-Ends ⊥ _ (not (host == "")) host_field_missing _ (λ e2.
              bind-Ends-eq ⊥ (λ _. Unit) _ (get_hostname m hc) _
                (item_string-Ends ⊥ items hc.config h config_hostname refl refl tt)
                (λ hostname g3 _.
                  guard-Ends ⊥ _ (not (hostname == "")) hostname_field_missing _ (λ _.
                    guard-Ends ⊥ _ (is_valid_address hostname) hostname_requires_valid_ip_address _
                      (λ e3.
                        bind-Ends-eq ⊥ (λ (n : ℤ). (k : ℕ) × (n ≡ pos (suc k))) _
                          (get_ssh_port m hc) _
                          (item_int-positive ⊥ items hc.config h config_ssh_port refl refl
                            (21, refl))
                          (λ port g4 p4.
                            guard-Ends ⊥ _ (is_port port) hosts_ssh_port_exceed_max_port_number _
                              (λ e4.
                                guard-Ends ⊥ _ (is_absolute file)
                                  private_key_file_require_absolute_path _
                                  (λ e1.
                                    bind-Ends-eq ⊥ (λ _. Unit) _ (get_forward_agent m hc) _
                                      (item_bool-Ends ⊥ items hc.config h config_forward_agent refl
                                        refl tt)
                                      (λ agent g5 _.
                                        Ends-map ⊥ _ _ (check_key_file m agent file)
                                          (check_key_file-Ends agent file)
                                          (λ _ a. record {
                                            host = (host, g2, refuted (host == "") e2);
                                            hostname = (hostname, g3, e3);
                                            port = port_bounds port hc p4 e4 g4;
                                            key_file = (file, agent, g1, e1, g5, a);
                                          })))))))))))

  build_host-Ends : (hc : HostConfig) → Ends ⊥ (IsHost m) (build_host m hc)
  unfolding build_host
  build_host-Ends hc =
      bind-Ends ⊥ (λ r. AllFit (host_itemset m) r.0) _ (build_host_items m hc.config hc) _
        (build_host_items-Ends hc.config hc)
        (λ r h.
          bind-Ends ⊥ (λ _. IsHost m (record r.1 { config = r.0 })) _
            (check_host m (record r.1 { config = r.0 })) _
            (check_host-Ends (record r.1 { config = r.0 }) h) (λ _ p. p))

  -- No two hosts have one name, and none has one of `seen`.
  abbrev pub AreNew : List String → List HostConfig → Type 0
  AreNew seen [] = Unit
  AreNew seen (hc ∷ hcs) =
      (s : String) × (get_host m hc ≡ ok s) × (contains seen s ≡ false) × AreNew (s ∷ seen) hcs

  parse_from-Ends :
      (global : Dict Value) (i : ℕ) (exist : List String) (hosts : List (Dict Value))
      → Ends ⊥ (λ hcs. All (IsHost m) hcs × AreNew exist hcs) (parse_from m global i exist hosts)
  unfolding parse_from
  parse_from-Ends global i exist [] = (tt, tt)
  parse_from-Ends global i exist (host ∷ hosts) =
      bind-Ends ⊥ (IsHost m) _ (build_host m (new_host_config i (fill_in global host))) _
        (build_host-Ends (new_host_config i (fill_in global host)))
        (λ hc p.
          bind-Ends-eq ⊥ (λ _. Unit) _ (get_host m hc) _ (let (s, e, _) = p.host in rw (e) tt)
            (λ name g _. guard-Ends ⊥ _ (not (contains exist name)) duplicate_host _ (λ e.
              bind-Ends ⊥ (λ hcs. All (IsHost m) hcs × AreNew (name ∷ exist) hcs) _
                (parse_from m global (suc i) (name ∷ exist) hosts) _
                (parse_from-Ends global (suc i) (name ∷ exist) hosts)
                (λ hcs (a, n). ((p, a), (name, g, refuted (contains exist name) e, n))))))

  -- The parsing of a document of hosts does not panic, whatever the document holds. When it
  -- returns hosts, their names are distinct and not empty; each has a host name that the
  -- expression for addresses accepts, an ssh port from 1 to 65535, and a key file with an
  -- absolute path, which exists with the permissions 600 unless the agent is forwarded.
  pub parse_hosts-AreHosts :
      (decode : String → Option (Dict Value × List (Dict Value))) (document : String)
      → Ends ⊥ (λ hcs. All (IsHost m) hcs × AreNew [] hcs) (parse_hosts m decode document)
  unfolding parse_hosts
  parse_hosts-AreHosts decode document = elim (Bool-cases (document == "")) [
    | inl e ↦ rw (e) tt
    | inr e ↦ elim (Option-cases (decode document)) [
      | inl f ↦ rw (e, f) tt
      | inr ((global, hosts), f) ↦ rw (e, f) (parse_from-Ends global 0 [] hosts)
    ]
  ]
