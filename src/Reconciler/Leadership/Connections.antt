-- ===== src/Reconciler/Leadership/Connections.antt =====
-- No connection is kept but the leader's, and none that may hold the lock goes back for reuse.
use mathlib.Core.Bool.{false≢true}
use rakazo.Common.{
  ==_refl, ==_iff, ℕ, suc, ◌<◌, ◌==◌, Bool, true, false, List, [], ◌∷◌, Option, none, some, any,
  All, All-map, ◌≡◌, refl, sym, ap, ◌∙◌, subst, inl, inr, Bool-cases, arith,
}
use rakazo.Reconciler.Leadership.{
  Answer, answered, failed, Leadership, fresh_leadership, without, give_back, connect, locked,
  acquire, try_acquire, lose, lose_client, unlocked, let_go, release, LeaderMove, tries, loses,
  releases, leader_step, leader_history,
}

abbrev pub holds : List ℕ → ℕ → Bool
holds may_hold client = any (λ c. c == client) may_hold

abbrev pub kept : Option ℕ → List ℕ
kept none = []
kept (some client) = client ∷ []

-- A connection that goes back for reuse surely holds no lock.
abbrev pub Reusable : List ℕ → ℕ × Bool → Type 0
Reusable may_hold (client, destroy) = destroy ≡ false → holds may_hold client ≡ false

abbrev pub IsClean : Leadership → Type 0
IsClean s = (s.out ≡ kept s.leader_client) × All (Reusable s.may_hold) s.returned

abbrev IsBelow : Leadership → Type 0
IsBelow s =
    All (λ c. c < s.next_client) (kept s.leader_client)
    × All (λ r. r.0 < s.next_client) s.returned
    × All (λ c. c < s.next_client) s.may_hold

abbrev IsSound : Leadership → Type 0
IsSound s = IsClean s × IsBelow s

without-holds : (k c : ℕ) (xs : List ℕ) → holds xs c ≡ false → holds (without k xs) c ≡ false
without-holds k c [] h = refl
without-holds k c (x ∷ xs) h = ground (arith, without-holds k c xs)

without_self : (k : ℕ) (xs : List ℕ) → holds (without k xs) k ≡ false
without_self k [] = refl
without_self k (x ∷ xs) = ground (arith, without_self k xs)

without-All : (n k : ℕ) (xs : List ℕ) → All (λ c. c < n) xs → All (λ c. c < n) (without k xs)
without-All n k [] h = tt
without-All n k (x ∷ xs) (h, hs) = ground (arith, without-All n k xs hs)

without_only : (k : ℕ) → without k (k ∷ []) ≡ []
without_only k = rw (==_refl k) refl

not_held : (n : ℕ) (xs : List ℕ) → All (λ c. c < n) xs → holds xs n ≡ false
not_held n [] h = refl
not_held n (x ∷ xs) (h, hs) = ground (arith, not_held n xs hs)

taken_back : (n : ℕ) (xs : List ℕ) → xs ≡ [] → without n (n ∷ xs) ≡ []
taken_back n xs h = ap (λ ys. without n (n ∷ ys)) h ∙ without_only n

-- A new connection may hold the lock, of which none was given back.
held_more :
    (n : ℕ) (mh : List ℕ) (rs : List (ℕ × Bool))
    → All (λ r. r.0 < n) rs
    → All (Reusable mh) rs
    → All (Reusable (n ∷ mh)) rs
held_more n mh [] b r = tt
held_more n mh ((c, d) ∷ rs) (b, bs) (r, rest) =
    ((λ e. ground (arith, r e)), held_more n mh rs bs rest)

held_less :
    (k : ℕ) (mh : List ℕ) (rs : List (ℕ × Bool))
    → All (Reusable mh) rs
    → All (Reusable (without k mh)) rs
held_less k mh rs =
    All-map (Reusable mh) (Reusable (without k mh)) rs (λ r h e. without-holds k r.0 mh (h e))

below_more : (n : ℕ) (xs : List ℕ) → All (λ c. c < n) xs → All (λ c. c < suc n) xs
below_more n xs = All-map (λ c. c < n) (λ c. c < suc n) xs (λ c h. omega (arith, h))

below_more_returned :
    (n : ℕ) (rs : List (ℕ × Bool)) → All (λ r. r.0 < n) rs → All (λ r. r.0 < suc n) rs
below_more_returned n rs = All-map (λ r. r.0 < n) (λ r. r.0 < suc n) rs (λ r h. omega (arith, h))

acquire-IsSound :
    (o : Option ℕ) (a : Answer) (s : Leadership)
    → s.leader_client ≡ o
    → IsSound s
    → IsSound (acquire o a s)
unfolding acquire locked connect give_back
acquire-IsSound (some c) a s e h = h
acquire-IsSound none (answered true) s e ((out, reuse), (lead, ret, mh)) =
    let n = s.next_client in
    (
      (ap (◌∷◌ n) (out ∙ ap kept e), held_more n s.may_hold s.returned ret reuse),
      (
        (omega arith, tt),
        below_more_returned n s.returned ret,
        (omega arith, below_more n s.may_hold mh),
      ),
    )
acquire-IsSound none (answered false) s e ((out, reuse), (lead, ret, mh)) =
    let n = s.next_client in
    (
      (
        taken_back n s.out (out ∙ ap kept e) ∙ sym (ap kept e),
        ((λ z. not_held n s.may_hold mh), reuse),
      ),
      (
        below_more n (kept s.leader_client) lead,
        (omega arith, below_more_returned n s.returned ret),
        below_more n s.may_hold mh,
      ),
    )
acquire-IsSound none failed s e ((out, reuse), (lead, ret, mh)) =
    let n = s.next_client in
    (
      (
        taken_back n s.out (out ∙ ap kept e) ∙ sym (ap kept e),
        ((λ z. absurd (false≢true (sym z))), held_more n s.may_hold s.returned ret reuse),
      ),
      (
        below_more n (kept s.leader_client) lead,
        (omega arith, below_more_returned n s.returned ret),
        (omega arith, below_more n s.may_hold mh),
      ),
    )

-- The leader's connection goes back.
back-IsSound :
    (client : ℕ) (destroy : Bool) (may_hold : List ℕ) (s : Leadership)
    → s.leader_client ≡ some client
    → IsSound s
    → All (Reusable may_hold) ((client, destroy) ∷ s.returned)
    → All (λ c. c < s.next_client) may_hold
    → IsSound (give_back client destroy (record s { leader_client = none; may_hold = may_hold }))
unfolding give_back
back-IsSound client destroy may_hold s e ((out, reuse), (lead, ret, mh)) back below = (
  (ap (without client) (out ∙ ap kept e) ∙ without_only client, back),
  (tt, ((subst (λ o. All (λ c. c < s.next_client) (kept o)) e lead).0, ret), below),
)

lose-IsSound :
    (o : Option ℕ) (client : ℕ) (s : Leadership)
    → s.leader_client ≡ o
    → IsSound s
    → IsSound (lose o client s)
unfolding lose
lose-IsSound none client s e h = h
lose-IsSound (some leader) client s e h = elim (Bool-cases (leader == client)) [
  | inl same ↦ rw same (
      back-IsSound client true s.may_hold s (e ∙ ap some ((==_iff leader client).0 same)) h
        ((λ z. absurd (false≢true (sym z))), h.0.1) h.1.2)
  | inr other ↦ rw other h
]

let_go-IsSound :
    (o : Option ℕ) (a : Answer) (s : Leadership)
    → s.leader_client ≡ o
    → IsSound s
    → IsSound (let_go o a s)
unfolding let_go unlocked
let_go-IsSound none a s e h = h
let_go-IsSound (some c) (answered true) s e h =
    back-IsSound c false (without c s.may_hold) s e h
      ((λ z. without_self c s.may_hold), held_less c s.may_hold s.returned h.0.1)
      (without-All s.next_client c s.may_hold h.1.2)
let_go-IsSound (some c) (answered false) s e h =
    back-IsSound c true s.may_hold s e h ((λ z. absurd (false≢true (sym z))), h.0.1) h.1.2
let_go-IsSound (some c) failed s e h =
    back-IsSound c true s.may_hold s e h ((λ z. absurd (false≢true (sym z))), h.0.1) h.1.2

history-IsSound :
    (ms : List LeaderMove) (s : Leadership) → IsSound s → IsSound (leader_history ms s)
unfolding leader_history leader_step try_acquire lose_client release
history-IsSound [] s h = h
history-IsSound (tries a ∷ ms) s h =
    history-IsSound ms (try_acquire a s) (acquire-IsSound s.leader_client a s refl h)
history-IsSound (loses c ∷ ms) s h =
    history-IsSound ms (lose_client c s) (lose-IsSound s.leader_client c s refl h)
history-IsSound (releases a ∷ ms) s h =
    history-IsSound ms (release a s) (let_go-IsSound s.leader_client a s refl h)

-- Whatever the server answers, and whenever a connection fails, a process that tries for the lock and
-- releases it keeps no connection checked out but the one it leads by, and none that goes back to the
-- pool for reuse is one whose session may hold the lock.
pub no_lock_goes_back : (ms : List LeaderMove) → IsClean (leader_history ms fresh_leadership)
unfolding fresh_leadership
no_lock_goes_back ms = (history-IsSound ms fresh_leadership ((refl, tt), (tt, tt, tt))).0
