-- ===== src/Transport/Delivery.antt =====
-- transport/http2/sse.go: which channels a notification reaches.
use mobile_db.Prelude.{
  ℕ, suc, if◌then◌else◌, ◌==◌, nat_eq, pair_eq, ℤ_eq, Str, codes, str_eq_self, str_eq_iff,
  str_eq_inst, ◌≡◌, refl, Bool, true, false, ◌||◌, some, List, [], ◌∷◌, ◌++◌, arith,
}
use mobile_db.Prelude.Dict.{Dict, get, put, get-put}
use mathlib.Core.List.{append_assoc}
use mobile_db.Transport.{
  Hub, sub_key, subs_at, is_full, subscribe, drop_first, unsubscribe, send_all, notify,
}

abbrev pub among : ℕ → List ℕ → Bool
among ch [] = false
among ch (x ∷ xs) = x == ch || among ch xs

pub get-send_all :
    (chs : List ℕ) (full : Dict ℕ Bool) (ch : ℕ)
    → get (send_all chs full) ch ≡ (if among ch chs then some true else get full ch)
unfolding send_all
get-send_all [] full ch = refl
get-send_all (x ∷ chs) full ch =
    ground (arith, get-send_all chs (put full x true) ch, get-put full x true ch)

-- After a notification a channel holds an unread message exactly if it held one before or is
-- subscribed for the app and the user notified.
pub is_full-notify :
    (a u : Str) (b : Hub) (ch : ℕ)
    → is_full ch (notify a u b).1 ≡ (among ch (subs_at (sub_key a u) b) || is_full ch b)
unfolding notify is_full
is_full-notify a u b ch = ground (arith, get-send_all (subs_at (sub_key a u) b) b.full ch)

drop_first_last :
    (ch : ℕ) (chs : List ℕ) → among ch chs ≡ false → drop_first ch (chs ++ (ch ∷ [])) ≡ chs
unfolding drop_first
drop_first_last ch [] h = ground arith
drop_first_last ch (x ∷ chs) h = ground (arith, drop_first_last ch chs)

among-last : (ch : ℕ) (chs : List ℕ) → among ch (chs ++ (ch ∷ [])) ≡ true
among-last ch [] = ground arith
among-last ch (x ∷ chs) = ground (arith, among-last ch chs)

subs_at-put :
    (b : Hub) (k : Str) (chs : List ℕ) (m : ℕ) (j : Str)
    → subs_at j (record b { subs = put b.subs k chs; made = m })
      ≡ (if k == j then chs else subs_at j b)
unfolding subs_at
subs_at-put b k chs m j = ground (arith, get-put b.subs k chs j)

-- A channel that is subscribed, and that was not among the subscribers, is reached by the next
-- notification for the same app and user; once it is unsubscribed every list of subscribers is as
-- it was before.
pub subscribe_reached :
    (a u : Str) (b : Hub)
    → among b.made (subs_at (sub_key a u) b) ≡ false
    → (is_full (subscribe a u b).0 (notify a u (subscribe a u b).1).1 ≡ true)
      × ((k : Str)
          → subs_at k (unsubscribe a u (subscribe a u b).0 (subscribe a u b).1) ≡ subs_at k b)
unfolding subscribe unsubscribe
subscribe_reached a u b h =
    let k = sub_key a u in
    let ch = b.made in
    let b' = (subscribe a u b).1 in
    let added = subs_at k b ++ (ch ∷ []) in
    (
      ground (
        arith,
        is_full-notify a u b' ch,
        subs_at-put b k added (suc ch) k,
        str_eq_self k,
        among-last ch (subs_at k b),
      ),
      λ j. ground (
        arith,
        subs_at-put b' k (drop_first ch (subs_at k b')) b'.made j,
        subs_at-put b k added (suc ch) k,
        subs_at-put b k added (suc ch) j,
        str_eq_self k,
        str_eq_iff k j,
        drop_first_last ch (subs_at k b) h,
      ),
    )

-- The app "a/b" with the user "c" and the app "a" with the user "b/c" share their subscribers, for
-- any texts a, b and c.
sub_key_collision :
    (a b c : Str) → sub_key (a ++ (codes "/" ++ b)) c ≡ sub_key a (b ++ (codes "/" ++ c))
unfolding sub_key
sub_key_collision a b c = simp append_assoc refl
