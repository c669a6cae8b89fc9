-- ===== src/LoginLimiter/Refinement.antt =====
-- The limiter of ratelimit.go against its unpruned history.
use shopify_gmc.Base.{
  ℕ, ◌+◌, ◌≤◌, ◌≡◌, refl, sym, String, true, false, Option, none, some, List, [], ◌∷◌, ◌++◌, ltb,
  length, length-append, select-append, All, All-append, arith, ==_iff, ==_refl, ◌==◌, string_eq,
  default, Bool-cases, inl, inr,
}
use shopify_gmc.Base.Int.{pos, ◌-ℤ◌}
use mathlib.Core.Path.{ap₂, subst}
use shopify_gmc.Base.Table.{insert, lookup, lookup-insert, lookup-remove}
use shopify_gmc.LoginLimiter.{
  window, LoginState, Limiter, new_state, check, check_state, fail_state, record_failure,
  record_success, Answer, window_answer, prune_before,
}
use shopify_gmc.LoginLimiter.History.{
  History, Event, probe, failure, success, last_or, lock_of, recent, answer, answers, expected,
  IsTimely, after_event,
}
use shopify_gmc.LoginLimiter.Window.{IsSorted, IsSorted-append, All-le_trans, prune_before-recent}

-- What the limiter keeps of the history `ts` of an address, at a time: `cut` is when it was last
-- pruned.
record IsStored (now : ℕ) (st : LoginState) (ts : List ℕ) : Type 0 where
  sorted : IsSorted ts
  past : All (λ u. u ≤ now) ts
  cut : ℕ
  cut_past : cut ≤ now
  kept : st.failures ≡ recent cut ts
  streak : st.streak_fail ≡ length ts
  lock : st.lock_until ≡ lock_of ts

abbrev Keeps : ℕ → Option LoginState → List ℕ → Type 0
Keeps now none ts = ts ≡ []
Keeps now (some st) ts = IsStored now st ts

abbrev Represents : ℕ → Limiter → History → Type 0
Represents now l h = (ip : String) → Keeps now (lookup ip l) (h ip)

later-IsStored :
    {t now : ℕ} {st : LoginState} {ts : List ℕ} → t ≤ now → IsStored t st ts → IsStored now st ts
later-IsStored {t} {now} {st} {ts} h s = record {
  sorted = s.sorted;
  past = All-le_trans ts t now h s.past;
  cut = s.cut;
  cut_past = omega (arith, s.cut_past);
  kept = s.kept;
  streak = s.streak;
  lock = s.lock;
}

later-Keeps :
    (t now : ℕ) (o : Option LoginState) (ts : List ℕ) → t ≤ now → Keeps t o ts → Keeps now o ts
later-Keeps t now none ts h k = k
later-Keeps t now (some st) ts h k = later-IsStored h k

new_state-IsStored : (now : ℕ) → IsStored now new_state []
new_state-IsStored now = record {
  sorted = tt;
  past = tt;
  cut = 0;
  cut_past = omega arith;
  kept = refl;
  streak = refl;
  lock = refl;
}

pruned :
    (now : ℕ) {st : LoginState} {ts : List ℕ}
    → IsStored now st ts
    → prune_before st.failures (pos now -ℤ pos window) ≡ recent now ts
pruned now {ts} s = rw s.kept (prune_before-recent ts s.cut now s.cut_past s.sorted)

check_state-answer :
    (now : ℕ) {st : LoginState} {ts : List ℕ}
    → IsStored now st ts
    → (check_state now st).1 ≡ answer now ts
unfolding check_state
check_state-answer now {st} {ts} s = ground (arith, pruned now s, s.lock)

check_state-IsStored :
    (now : ℕ) {st : LoginState} {ts : List ℕ}
    → IsStored now st ts
    → IsStored now (check_state now st).0 ts
unfolding check_state
check_state-IsStored now {st} {ts} s = elim (Bool-cases (ltb now st.lock_until)) [
  | inl locked ↦ rw (locked, check_state) s
  | inr free ↦
      rw (free, check_state)
        (record {
          sorted = s.sorted;
          past = s.past;
          cut = now;
          cut_past = omega arith;
          kept = pruned now s;
          streak = s.streak;
          lock = s.lock;
        })
]

last_or-append : (t now : ℕ) (ts : List ℕ) → last_or t (ts ++ now ∷ []) ≡ now
last_or-append t now [] = refl
last_or-append t now (u ∷ ts) = last_or-append u now ts

fail_state-IsStored :
    (now : ℕ) {st : LoginState} {ts : List ℕ}
    → IsStored now st ts
    → IsStored now (fail_state now st) (ts ++ now ∷ [])
unfolding fail_state
fail_state-IsStored now {st} {ts} s = record {
  sorted = IsSorted-append ts now s.sorted s.past;
  past = All-append (λ u. u ≤ now) ts (now ∷ []) s.past (omega arith, tt);
  cut = s.cut;
  cut_past = s.cut_past;
  kept =
      ground (
        arith,
        s.kept,
        s.cut_past,
        select-append (λ (t : ℕ). ltb s.cut (t + window)) ts (now ∷ []),
      );
  streak = omega (arith, s.streak, length-append ts (now ∷ []));
  lock = ground (arith, s.streak, s.lock, length-append ts (now ∷ []), last_or-append 0 now ts);
}

-- An address whose entry is replaced, and the others.
put-Keeps :
    (now : ℕ) (l : Limiter) (h h' : History) (ip : String) {st : LoginState}
    → Represents now l h
    → IsStored now st (h' ip)
    → ((j : String) → (ip == j) ≡ false → h' j ≡ h j)
    → Represents now (insert ip st l) h'
put-Keeps now l h h' ip {st} r s same j = elim (Bool-cases (ip == j)) [
  | inl here ↦
      rw (lookup-insert ip j st l, here)
        (subst (λ i. IsStored now st (h' i)) ((==_iff ip j).0 here) s)
  | inr other ↦ rw (lookup-insert ip j st l, other, same j other) (r j)
]

later-Represents :
    (t now : ℕ) (l : Limiter) (h : History) → t ≤ now → Represents t l h → Represents now l h
later-Represents t now l h le r ip = later-Keeps t now (lookup ip l) (h ip) le (r ip)

module _ (now : ℕ) (l : Limiter) (ip : String) where
  pub check-none : lookup ip l ≡ none → check l now ip ≡ (l, (0, true))
  unfolding check
  check-none e = rw (e, check) refl

  pub check-some :
      {st : LoginState}
      → lookup ip l ≡ some st
      → check l now ip ≡ (insert ip (check_state now st).0 l, (check_state now st).1)
  unfolding check
  check-some e = rw (e, check) refl

  pub record_failure-insert :
      record_failure l now ip ≡ insert ip (fail_state now (default (lookup ip l) new_state)) l
  unfolding record_failure
  record_failure-insert = refl

answer_fresh : (now : ℕ) (ts : List ℕ) → ts ≡ [] → answer now ts ≡ (0, true)
unfolding window_answer
answer_fresh now ts e = rw e (ground arith)

extend_self :
    (now : ℕ) (h : History) (ip : String) → after_event (failure now ip) h ip ≡ h ip ++ now ∷ []
extend_self now h ip = rw (==_refl ip) refl

check-Represents :
    (now : ℕ) (l : Limiter) (h : History) (ip : String)
    → Represents now l h
    → Represents now (check l now ip).0 h × ((check l now ip).1 ≡ answer now (h ip))
check-Represents now l h ip r = go (lookup ip l) refl (r ip)
  where
    go :
        (o : Option LoginState)
        → lookup ip l ≡ o
        → Keeps now o (h ip)
        → Represents now (check l now ip).0 h × ((check l now ip).1 ≡ answer now (h ip))
    go none e k = rw (check-none now l ip e) (r, sym (answer_fresh now (h ip) k))
    go (some st) e k = rw (check-some now l ip e) (
      put-Keeps now l h h ip r (check_state-IsStored now k) (λ j o. refl),
      check_state-answer now k,
    )

record_failure-Represents :
    (now : ℕ) (l : Limiter) (h : History) (ip : String)
    → Represents now l h
    → Represents now (record_failure l now ip) (after_event (failure now ip) h)
record_failure-Represents now l h ip r = go (lookup ip l) refl (r ip)
  where
    go :
        (o : Option LoginState)
        → lookup ip l ≡ o
        → Keeps now o (h ip)
        → Represents now (record_failure l now ip) (after_event (failure now ip) h)
    go none e k =
        rw (record_failure-insert now l ip, e)
          (put-Keeps now l h (after_event (failure now ip) h) ip r
            (rw (extend_self now h ip, k) (fail_state-IsStored now (new_state-IsStored now)))
            (λ j o. rw o refl))
    go (some st) e k =
        rw (record_failure-insert now l ip, e)
          (put-Keeps now l h (after_event (failure now ip) h) ip r
            (rw (extend_self now h ip) (fail_state-IsStored now k)) (λ j o. rw o refl))

record_success-Represents :
    (now : ℕ) (l : Limiter) (h : History) (ip : String)
    → Represents now l h
    → Represents now (record_success l ip) (after_event (success ip) h)
unfolding record_success
record_success-Represents now l h ip r j = elim (Bool-cases (ip == j)) [
  | inl here ↦ rw (lookup-remove ip j l, here) refl
  | inr other ↦ rw (lookup-remove ip j l, other) (r j)
]

answers-expected :
    (t : ℕ) (es : List Event) (l : Limiter) (h : History)
    → IsTimely t es
    → Represents t l h
    → answers es l ≡ expected es h
unfolding answers expected
answers-expected t [] l h m r = refl
answers-expected t (probe now ip ∷ es) l h m r =
    let (kept, same) = check-Represents now l h ip (later-Represents t now l h m.0 r) in
    ap₂ (λ (a : Answer) (rest : List Answer). a ∷ rest) same
      (answers-expected now es (check l now ip).0 h m.1 kept)
answers-expected t (failure now ip ∷ es) l h m r =
    answers-expected now es (record_failure l now ip) (after_event (failure now ip) h) m.1
      (record_failure-Represents now l h ip (later-Represents t now l h m.0 r))
answers-expected t (success ip ∷ es) l h m r =
    answers-expected t es (record_success l ip) (after_event (success ip) h) m
      (record_success-Represents t l h ip r)

-- Over any sequence of checks, failures and successes of any addresses at times that do not run
-- backwards, a new limiter gives every check the answer that the unpruned history of the address
-- gives: the limiter forgets no failure that counts, keeps none that does not, and mixes no two
-- addresses.
pub limiter_refines_history :
    (t : ℕ) (es : List Event) → IsTimely t es → answers es [] ≡ expected es (λ ip. [])
unfolding lookup
limiter_refines_history t es m = answers-expected t es [] (λ ip. []) m (λ ip. refl)
