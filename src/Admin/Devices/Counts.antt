-- ===== src/Admin/Devices/Counts.antt =====
-- The list of device keys and its counts.
use mobile_db.Prelude.{
  ℕ, suc, ◌+◌, Option-cases, nat_eq, pair_eq, ℤ_eq, Str, codes, str_eq_iff, str_eq_inst, length,
  select, ◌≡◌, refl, sym, ap, ◌∙◌, ◌≢◌, inl, inr, some, List, [], ◌∷◌, map, arith,
}
use mobile_db.Prelude.Rows.{RowOrder, Falling, length-map}
use mobile_db.Prelude.Dict.{Dict, get, put, get-put, Unique, put-Unique, or_else}
use mathlib.Core.List.{Permᴰ}
use mobile_db.Prelude.Exec.{ok, Conn}
use mobile_db.Prelude.Exec.Runs.{stmt_read}
use mobile_db.Server.Device.{DeviceKey, KeyTable}
use mobile_db.Admin.Devices.{
  listed_key, has_status, list_devices, counted, status_groups, DeviceCounts, add_group, add_groups,
  no_devices, device_counts,
}

-- The keys with a status, whatever the filter.
abbrev pub with_status : Str → KeyTable → List DeviceKey
with_status status t = select (has_status status) (map listed_key t)

sum_groups : List (Str × ℕ) → ℕ
sum_groups [] = 0
sum_groups ((s, n) ∷ gs) = n + sum_groups gs

sum-put :
    (gs : Dict Str ℕ) (s : Str)
    → sum_groups (put gs s (suc (counted (get gs s)))) ≡ suc (sum_groups gs)
unfolding sum_groups put get counted
sum-put [] s = omega arith
sum-put ((j, n) ∷ gs) s = ground (arith, str_eq_iff j s, sum-put gs s)

groups_lem :
    (t : KeyTable)
    → (sum_groups (status_groups t) ≡ length (map listed_key t))
      × ((s : Str) → s ≢ [] → counted (get (status_groups t) s) ≡ length (with_status s t))
      × Unique (status_groups t)
unfolding sum_groups status_groups get counted select listed_key has_status
groups_lem [] = (refl, (λ s h. refl), tt)
groups_lem ((id, dk) ∷ t) =
    let (total, each, unique) = groups_lem t in
    let gs = status_groups t in
    (
      sum-put gs dk.status ∙ ap suc total,
      λ s h. ground (
        arith,
        get-put gs dk.status (suc (counted (get gs dk.status))) s,
        str_eq_iff s [],
        str_eq_iff dk.status s,
        each s h,
      ),
      put-Unique gs dk.status (suc (counted (get gs dk.status))) unique,
    )

add_groups_lem :
    (n : DeviceCounts) (gs : Dict Str ℕ)
    → Unique gs
    → let n' = add_groups n gs in
      (n'.all ≡ n.all + sum_groups gs)
      × (n'.active ≡ counted (or_else (get gs (codes "active")) (some n.active)))
      × (n'.revoked ≡ counted (or_else (get gs (codes "revoked")) (some n.revoked)))
unfolding add_groups add_group sum_groups get counted
add_groups_lem n [] u = ground arith
add_groups_lem n ((s, k) ∷ gs) u = ground (
  arith,
  add_groups_lem (add_group n (s, k)) gs u.1,
  str_eq_iff s (codes "active"),
  str_eq_iff s (codes "revoked"),
)

counted_or :
    (gs : Dict Str ℕ) (s : Str) → counted (or_else (get gs s) (some 0)) ≡ counted (get gs s)
unfolding counted
counted_or gs s = elim (Option-cases (get gs s)) [ inl e ↦ rw e refl | inr (k, e) ↦ rw e refl ]

-- The list has the keys of the filter's status, the newest first, and the counts that follow are
-- the numbers of all keys, of the active and of the revoked ones.
pub list_devices-counts :
    (o : RowOrder) (status : Str) (c : Conn KeyTable) (devices : List DeviceKey) (n : DeviceCounts)
    → (list_devices o status c).0 ≡ ok devices
    → (device_counts (list_devices o status c).1).0 ≡ ok n
    → Permᴰ devices (with_status status c.tables)
      × Falling (λ dk. dk.registered_at) devices
      × (n.all ≡ length c.tables)
      × (n.active ≡ length (with_status (codes "active") c.tables))
      × (n.revoked ≡ length (with_status (codes "revoked") c.tables))
unfolding list_devices device_counts counted
list_devices-counts o status c devices n h k =
    let newest : KeyTable → List DeviceKey =
      λ t. o.arrange DeviceKey (λ dk. dk.registered_at) (with_status status t) in
    let (listed, same) = stmt_read newest c devices h in
    let c' = (list_devices o status c).1 in
    let (tallied, _) = stmt_read (λ t. add_groups no_devices (status_groups t)) c' n k in
    let gs = status_groups c.tables in
    let (total, each, unique) = groups_lem c.tables in
    let (all, active, revoked) = add_groups_lem no_devices gs unique in
    let e : add_groups no_devices gs ≡ n =
      ap (λ t. add_groups no_devices (status_groups t)) (sym same) ∙ tallied in
    (
      rw (sym listed)
          (o.arrange_perm DeviceKey (λ dk. dk.registered_at) (with_status status c.tables)),
      rw (sym listed)
          (o.arrange_falls DeviceKey (λ dk. dk.registered_at) (with_status status c.tables)),
      omega (arith, ap (λ m. m.all) e, all, total, length-map listed_key c.tables),
      ap (λ m. m.active) (sym e)
          ∙ active
          ∙ counted_or gs (codes "active")
          ∙ each (codes "active") (cc),
      ap (λ m. m.revoked) (sym e)
          ∙ revoked
          ∙ counted_or gs (codes "revoked")
          ∙ each (codes "revoked") (cc),
    )
