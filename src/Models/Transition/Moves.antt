-- ===== src/Models/Transition/Moves.antt =====
-- What one call of `transition_run` reads, checks and writes.
use vibe_coding_harness.Prelude.{
  String, eq_refl, ◌≡◌, refl, true, false, not, some, ok, arith, eq_iff, ◌>>=◌, ◌>>◌, >>=-eq-ok,
  sym, ◌∙◌, reject_if, ap, eq_iff, ◌==◌, expect, inl, inr, Bool-cases,
}
use vibe_coding_harness.Json.{Json, Fields, null, str, get, put}
use vibe_coding_harness.Json.Laws.{get-put}
use vibe_coding_harness.Models.Status.{RunStatus, created, run_value, run_status}
use vibe_coding_harness.Models.Transition.{transition_run, update_resume, is_halt, to_run_status}
use vibe_coding_harness.Models.Transition.Phases.{is_active}
use vibe_coding_harness.Models.Transition.Table.{
  allows, allows-halt, allows-resume, not-halt_of_active, refused,
}

pub to_run_status-value : (c : RunStatus) → to_run_status (str (run_value c)) ≡ ok c
unfolding run_status
to_run_status-value created = refl
to_run_status-value _ = refl

-- A transition, once the status is read.
pub transition_run-read :
    (s : Fields) (c t : RunStatus)
    → get "status" s ≡ some (str (run_value c))
    → transition_run s t ≡ (
        reject_if (not (allows c t)) "invalid run transition"
        >> (update_resume c t s >>= λ u. ok (put "status" (str (run_value t)) u)))
unfolding transition_run
transition_run-read s c t h = rw (h, expect) (rw (to_run_status-value c))

-- What an accepted transition has checked and written.
pub accepted :
    (s s' : Fields) (c t : RunStatus)
    → get "status" s ≡ some (str (run_value c))
    → transition_run s t ≡ ok s'
    → (u : Fields) × (allows c t ≡ true)
      × (update_resume c t s ≡ ok u)
      × (s' ≡ put "status" (str (run_value t)) u)
accepted s s' c t h e =
    let read = sym (transition_run-read s c t h) ∙ e in
    elim (Bool-cases (allows c t)) [
      | inl listed ↦
          let (u, made, done) =
            >>=-eq-ok (update_resume c t s) (λ u. ok (put "status" (str (run_value t)) u))
              (rw listed at read) in
          (u, listed, made, cc)
      | inr refused ↦ let failure = rw refused at read in cc
    ]

pub written :
    (u s' : Fields) (t : RunStatus)
    → s' ≡ put "status" (str (run_value t)) u
    → (get "status" s' ≡ some (str (run_value t)))
      × (get "resume_status" s' ≡ get "resume_status" u)
written u s' t e = (rw (e, get-put), rw (e, get-put))

pub run_value-injective : (a b : RunStatus) → (run_value a == run_value b) ≡ true → b ≡ a
run_value-injective a b e = cc (
  ap to_run_status (ap str ((eq_iff (run_value a) (run_value b)).0 e)),
  to_run_status-value a,
  to_run_status-value b,
)

pub stored : (k : String) (v : Json) (s u : Fields) → ok (put k v s) ≡ ok u → get k u ≡ some v
stored k v s u e = let e' : u ≡ put k v s = cc in rw (e', get-put) (rw (eq_refl k))

-- `update_resume` in its four cases.
module _ (c t : RunStatus) (s u : Fields) (made : update_resume c t s ≡ ok u) where
  pub update-halting :
      is_halt c ≡ false → is_halt t ≡ true → get "resume_status" u ≡ some (str (run_value c))
  unfolding update_resume
  update-halting hc ht = stored "resume_status" (str (run_value c)) s u (rw (ht, hc) at made)

  pub update-going : is_halt c ≡ false → is_halt t ≡ false → u ≡ s
  unfolding update_resume
  update-going hc ht = let e = rw (ht, hc) at made in cc

  pub update-halted : is_halt c ≡ true → is_halt t ≡ true → u ≡ s
  unfolding update_resume
  update-halted hc ht = let e = rw (ht, hc) at made in cc

  pub update-resuming :
      (a : RunStatus)
      → get "resume_status" s ≡ some (str (run_value a))
      → is_halt c ≡ true
      → is_halt t ≡ false
      → (t ≡ a) × (get "resume_status" u ≡ some null)
  unfolding update_resume
  update-resuming a r hc ht =
      ground (arith, run_value-injective a t, stored "resume_status" null s u)

module _ (s : Fields) where
  -- A listed move between working states writes only the status.
  pub go-live :
      (a b : RunStatus)
      → get "status" s ≡ some (str (run_value a))
      → is_active a ≡ true
      → is_halt b ≡ false
      → allows a b ≡ true
      → transition_run s b ≡ ok (put "status" (str (run_value b)) s)
  unfolding update_resume
  go-live a b r i g listed = transition_run-read s a b r ∙ rw (listed, g, not-halt_of_active a i)

  pub halt-live :
      (a h : RunStatus)
      → get "status" s ≡ some (str (run_value a))
      → is_active a ≡ true
      → is_halt h ≡ true
      → transition_run s h
        ≡ ok (put "status" (str (run_value h)) (put "resume_status" (str (run_value a)) s))
  unfolding update_resume
  halt-live a h r i halts =
      transition_run-read s a h r ∙ rw (allows-halt a h i halts, halts, not-halt_of_active a i)

  pub resume-halted :
      (h a : RunStatus)
      → get "status" s ≡ some (str (run_value h))
      → get "resume_status" s ≡ some (str (run_value a))
      → is_halt h ≡ true
      → is_active a ≡ true
      → transition_run s a ≡ ok (put "status" (str (run_value a)) (put "resume_status" null s))
  unfolding update_resume
  resume-halted h a r q halts i =
      transition_run-read s h a r
      ∙ rw (allows-resume h a halts i, not-halt_of_active a i, halts, q, eq_refl)
