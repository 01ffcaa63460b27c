-- ===== src/Transport.antt =====
-- transport/http2/sse.go: the broadcaster that tells a user's open event streams of a sync. A channel
-- is a number; the mutex makes each call one step.
pub mod Delivery
pub mod Streams
use mobile_db.Prelude.{
  ℕ, suc, if◌then◌else◌, ◌==◌, nat_eq, pair_eq, ℤ_eq, Str, codes, str_eq_inst, Bool, true, false,
  none, some, List, [], ◌∷◌, ◌++◌,
}
use mobile_db.Prelude.Dict.{Dict, get, put}
use mobile_db.Prelude.Exec.{ok}
use mobile_db.Prelude.Eff.{Eff}
use mobile_db.Sync.{Notifier}

-- The subscribers by key, and the channels: how many were made, and which hold an unread message.
pub record Hub : Type 0 where
  pub subs : Dict Str (List ℕ)
  pub made : ℕ
  pub full : Dict ℕ Bool

unfoldable pub sub_key : Str → Str → Str
sub_key app_id user_id = app_id ++ (codes "/" ++ user_id)

-- `b.subs[k]`
unfoldable pub subs_at : Str → Hub → List ℕ
subs_at k b = elim (get b.subs k) [ none ↦ [] | some chs ↦ chs ]

unfoldable pub is_full : ℕ → Hub → Bool
is_full ch b = elim (get b.full ch) [ none ↦ false | some x ↦ x ]

unfoldable pub subscribe : Str → Str → Hub → ℕ × Hub
subscribe app_id user_id b =
    let ch = b.made in
    let k = sub_key app_id user_id in
    (ch, record b { subs = put b.subs k (subs_at k b ++ (ch ∷ [])); made = suc ch })

-- The list without its first occurrence of `ch`.
unfoldable pub drop_first : ℕ → List ℕ → List ℕ
drop_first ch [] = []
drop_first ch (s ∷ subs) = if s == ch then subs else s ∷ drop_first ch subs

unfoldable pub unsubscribe : Str → Str → ℕ → Hub → Hub
unsubscribe app_id user_id ch b =
    let k = sub_key app_id user_id in record b { subs = put b.subs k (drop_first ch (subs_at k b)) }

-- A send that does not wait, into a channel with room for one message.
unfoldable pub send_all : List ℕ → Dict ℕ Bool → Dict ℕ Bool
send_all [] full = full
send_all (ch ∷ chs) full = send_all chs (put full ch true)

unfoldable pub notify : Str → Str → Eff Hub (Unit {0})
notify app_id user_id b =
    (ok tt, record b { full = send_all (subs_at (sub_key app_id user_id) b) b.full })

abbrev pub broadcaster : Notifier Hub
broadcaster = record { notify = notify }
