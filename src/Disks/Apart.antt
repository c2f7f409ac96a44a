-- ===== src/Disks/Apart.antt =====
-- What the parsing of the disks gives.
use curveadm.Prelude.{
  ℕ, suc, ◌≤◌, String, ◌≡◌, refl, ap, ◌∙◌, subst, arith, ◌==◌, true, false, not, ◌⊎◌, refuted,
  Option, none, some, List, [], ◌∷◌, Dict, All, All-map, lookup-insert, Values, ℤ, pos, is_zero, ok,
  Ends, contains, keep, IsNew, bind-Ends, bind-Ends-eq, guard-Ends, Ends-map, is_zero,
}
use curveadm.Errno.{
  device_field_missing, mount_point_field_missing, format_percent_field_missing, duplicate_disk,
  disk_format_percent_exceed_100, host_field_missing, duplicate_host, host_not_found,
}
use curveadm.Config.Value.{Value, texts}
use curveadm.Topology.Item.{as_string, as_int}
use curveadm.Config.ItemSet.{CommItem, find_comm_item, get_item, item_texts}
use curveadm.Config.Built.{is_plain}
use curveadm.Config.Items.{
  AllFit, Fits, find_comm_item-Admits, item_build-Ends, item_string-Ends, item_texts-Ends,
  item_int-positive,
}
use curveadm.Hosts.{fill_in}
use curveadm.Disks.{
  DiskConfig, disk_itemset, config_disk_host, config_host_exclude, config_device,
  config_mount_point, config_format_percent, get_hosts, get_host_exclude, get_device,
  get_mount_point, get_format_percent, build_disk_item, build_disk_items, are_members,
  exclude_hosts, merge_final_host, check_dup_host, are_none, is_percent, check_disk, build_disk,
  parse_disks_from,
}
use curveadm.Disks.Hosts.{IsDisk, AreApart, kept_out, all_members, AllFit-insert, fill_in-Values}

-- `N` holds when some list of the document is not one of texts.
module _ (N : Type 0) where
  build_disk_item-Ends :
      (o : Option CommItem) (k : String) (v : Value)
      → (is_plain v ≡ true) ⊎ N
      → Ends N (Fits disk_itemset k) (build_disk_item o k v)
  build_disk_item-Ends none k v h = tt
  build_disk_item-Ends (some i) k v h =
      item_build-Ends N disk_itemset k v
        (find_comm_item-Admits N v disk_itemset (tt, (tt, (tt, (h, (tt, (tt, (h, tt))))))) k)

  build_disk_items-Ends :
      (config : Dict Value)
      → Values (λ v. (is_plain v ≡ true) ⊎ N) config
      → Ends N (AllFit disk_itemset) (build_disk_items config)
  unfolding build_disk_items
  build_disk_items-Ends [] h = tt
  build_disk_items-Ends ((k, v) ∷ config) (p, h) =
      bind-Ends N (Fits disk_itemset k) _ (build_disk_item (find_comm_item k disk_itemset) k v) _
        (build_disk_item-Ends (find_comm_item k disk_itemset) k v p)
        (λ w q.
          bind-Ends N (AllFit disk_itemset) _ (build_disk_items config) _
            (build_disk_items-Ends config h) (λ config' g. (q, g)))

  are_members-Ends : (hosts xs : List String) → Ends N (λ _. Unit) (are_members hosts xs)
  unfolding are_members
  are_members-Ends hosts [] = tt
  are_members-Ends hosts (x ∷ xs) =
      guard-Ends N _ (contains hosts x) host_not_found _ (λ _. are_members-Ends hosts xs)

  -- The excluded hosts are not among those that are left.
  abbrev Left : DiskConfig → Type 0
  Left dc =
      AllFit disk_itemset dc.config
      × (xs : List String) × (get_host_exclude dc ≡ ok xs)
      × ((hs : List String) → get_hosts dc ≡ ok hs → All (λ x. contains hs x ≡ false) xs)

  exclude_hosts-Ends :
      (xs : List String) (dc : DiskConfig)
      → AllFit disk_itemset dc.config
      → get_host_exclude dc ≡ ok xs
      → Ends N Left (exclude_hosts xs dc)
  unfolding exclude_hosts find_comm_item item_texts get_item
  exclude_hosts-Ends [] dc h e = (h, [], e, λ hs f. tt)
  exclude_hosts-Ends (x ∷ xs) dc h e =
      bind-Ends N (λ _. Unit) _ (get_hosts dc) _
        (item_texts-Ends N disk_itemset dc.config h config_disk_host refl refl tt)
        (λ hosts _.
          bind-Ends N (λ _. Unit) _ (are_members hosts (x ∷ xs)) _ (are_members-Ends hosts (x ∷ xs))
            (λ _ _.
              let hs = keep (λ h. not (contains (x ∷ xs) h)) hosts in
              let out =
                All-map (λ y. contains (x ∷ xs) y ≡ true) (λ y. contains hs y ≡ false)
                  (kept_out (x ∷ xs) hosts) (x ∷ xs) (all_members (x ∷ xs)) in
              (
                AllFit-insert "host" (texts hs) dc.config (hs, refl) h,
                x ∷ xs,
                rw (lookup-insert) e,
                λ ys f.
                    let same : hs ≡ ys = cc (rw (lookup-insert) at f) in
                    subst (λ zs. All (λ y. contains zs y ≡ false) (x ∷ xs)) same out,
              )))

  merge_final_host-Ends :
      (dc : DiskConfig) → AllFit disk_itemset dc.config → Ends N Left (merge_final_host dc)
  unfolding merge_final_host find_comm_item
  merge_final_host-Ends dc h =
      bind-Ends-eq N (λ _. Unit) _ (get_host_exclude dc) _
        (item_texts-Ends N disk_itemset dc.config h config_host_exclude refl refl tt)
        (λ xs e _. exclude_hosts-Ends xs dc h e)

  check_dup_host-Ends :
      (exist hosts : List String) → Ends N (λ _. IsNew exist hosts) (check_dup_host exist hosts)
  unfolding check_dup_host
  check_dup_host-Ends exist [] = tt
  check_dup_host-Ends exist (h ∷ hosts) =
      guard-Ends N _ (not (contains exist h)) duplicate_host _ (λ e.
        Ends-map N _ _ (check_dup_host (h ∷ exist) hosts) (check_dup_host-Ends (h ∷ exist) hosts)
          (λ _ p. (refuted (contains exist h) e, p)))

  percent_bounds :
      (p : ℤ) (dc : DiskConfig)
      → (n : ℕ) × (p ≡ pos (suc n))
      → is_percent p ≡ true
      → get_format_percent dc ≡ ok p
      → (n : ℕ) × (get_format_percent dc ≡ ok (pos n)) × (1 ≤ n) × (n ≤ 100)
  percent_bounds p dc (n, e) b g =
      let q : is_percent (pos (suc n)) ≡ true = (rw e at b) in
      (suc n, g ∙ ap ok e, omega arith, ground (arith, q))

  check_disk-Ends : (dc : DiskConfig) → Left dc → Ends N (λ _. IsDisk dc) (check_disk dc)
  unfolding check_disk find_comm_item as_string as_int
  check_disk-Ends dc (h, xs, ex, out) =
      bind-Ends-eq N (λ _. Unit) _ (get_hosts dc) _
        (item_texts-Ends N disk_itemset dc.config h config_disk_host refl refl tt)
        (λ hosts g1 _. guard-Ends N _ (not (are_none hosts)) host_field_missing _ (λ e1.
          bind-Ends-eq N (λ _. Unit) _ (get_device dc) _
            (item_string-Ends N disk_itemset dc.config h config_device refl refl tt)
            (λ device g2 _. guard-Ends N _ (not (device == "")) device_field_missing _ (λ e2.
              bind-Ends-eq N (λ _. Unit) _ (get_mount_point dc) _
                (item_string-Ends N disk_itemset dc.config h config_mount_point refl refl tt)
                (λ mount g3 _. guard-Ends N _ (not (mount == "")) mount_point_field_missing _ (λ e3.
                  bind-Ends-eq N (λ (n : ℤ). (k : ℕ) × (n ≡ pos (suc k))) _ (get_format_percent dc)
                    _
                    (item_int-positive N disk_itemset dc.config h config_format_percent refl refl
                      (89, refl))
                    (λ percent g4 p4.
                      guard-Ends N _ (not (is_zero percent)) format_percent_field_missing _ (λ _.
                        guard-Ends N _ (is_percent percent) disk_format_percent_exceed_100 _ (λ e4.
                          Ends-map N _ _ (check_dup_host [] hosts) (check_dup_host-Ends [] hosts)
                            (λ _ new. record {
                              hosts = (
                                hosts,
                                xs,
                                g1,
                                ex,
                                refuted (are_none hosts) e1,
                                new,
                                out hosts g1,
                              );
                              device = (device, g2, refuted (device == "") e2);
                              mount_point = (mount, g3, refuted (mount == "") e3);
                              percent = percent_bounds percent dc p4 e4 g4;
                            }))))))))))

  abbrev pub Plain : Dict Value → Type 0
  Plain config = Values (λ v. (is_plain v ≡ true) ⊎ N) config

  build_disk-Ends : (dc : DiskConfig) → Plain dc.config → Ends N IsDisk (build_disk dc)
  unfolding build_disk
  build_disk-Ends dc p =
      bind-Ends N (AllFit disk_itemset) _ (build_disk_items dc.config) _
        (build_disk_items-Ends dc.config p)
        (λ config h.
          bind-Ends N Left _ (merge_final_host (record dc { config = config })) _
            (merge_final_host-Ends (record dc { config = config }) h)
            (λ dc' l.
              bind-Ends N (λ _. IsDisk dc') _ (check_disk dc') _ (check_disk-Ends dc' l)
                (λ _ q. q)))

  pub parse_disks_from-Ends :
      (global : Dict Value) (i : ℕ) (exist : List String) (disks : List (Dict Value))
      → Plain global
      → All Plain disks
      → Ends N (λ dcs. All IsDisk dcs × AreApart exist dcs) (parse_disks_from global i exist disks)
  unfolding parse_disks_from
  parse_disks_from-Ends global i exist [] g a = (tt, tt)
  parse_disks_from-Ends global i exist (disk ∷ disks) g (p, a) =
      bind-Ends N IsDisk _ (build_disk (record { sequence = i; config = fill_in global disk })) _
        (build_disk-Ends (record { sequence = i; config = fill_in global disk })
          (fill_in-Values _ global disk g p))
        (λ dc q.
          bind-Ends-eq N (λ _. Unit) _ (get_device dc) _ (let (s, e, _) = q.device in rw (e) tt)
            (λ device g1 _. guard-Ends N _ (not (contains exist device)) duplicate_disk _ (λ e1.
              bind-Ends-eq N (λ _. Unit) _ (get_mount_point dc) _
                (let (s, e, _) = q.mount_point in rw (e) tt)
                (λ mount g2 _. guard-Ends N _ (not (contains exist mount)) duplicate_disk _ (λ e2.
                  bind-Ends N (λ dcs. All IsDisk dcs × AreApart (mount ∷ device ∷ exist) dcs) _
                    (parse_disks_from global (suc i) (mount ∷ device ∷ exist) disks) _
                    (parse_disks_from-Ends global (suc i) (mount ∷ device ∷ exist) disks g a)
                    (λ dcs (b, n). (
                      (q, b),
                      (
                        device,
                        mount,
                        g1,
                        g2,
                        refuted (contains exist device) e1,
                        refuted (contains exist mount) e2,
                        n,
                      ),
                    )))))))
