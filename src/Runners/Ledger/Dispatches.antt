-- ===== src/Runners/Ledger/Dispatches.antt =====
-- How the dispatches of a state are read and changed, in src/vibe/runners/__init__.py.
use vibe_coding_harness.Prelude.{
  ℕ, String, ◌≡◌, sym, ap, ◌∙◌, some, ok, expect-some, reject_if, next, ok-injective, contains,
}
use vibe_coding_harness.Json.{Fields, dict, keys, get, put}
use vibe_coding_harness.Json.Laws.{get-put}
use vibe_coding_harness.Models.Contracts.{ArtifactRef}
use vibe_coding_harness.Models.Access.{dict_item, modify_item}
use vibe_coding_harness.Models.Validation.Basic.{item}
use vibe_coding_harness.Store.Transactions.{revision_of}
use vibe_coding_harness.Runners.{
  RoleInvocation, new_dispatch, add_pending_dispatch, pending_of, put_pending,
}
use vibe_coding_harness.Runners.Ledger.Handover.{as_dict-some, dict_item-get, get_value-get}

dispatches :
    (d p : Fields) → dict_item "pending_dispatches" (put "pending_dispatches" (dict p) d) ≡ ok p
unfolding dict_item item
dispatches d p = simp get-put

pub put_pending-put :
    (token : String) (d current new p : Fields)
    → get "pending_dispatches" current ≡ some (dict p)
    → put_pending token d current ≡ ok new
    → new ≡ put "pending_dispatches" (dict (put token (dict d) p)) current
unfolding put_pending modify_item
put_pending-put token d current new p read h =
    next (dict_item "pending_dispatches" current) _ h (λ p' read' h1.
      let same : p' ≡ p = cc (dict_item-get "pending_dispatches" current p' read', read) in
      sym (ok-injective h1)
      ∙ ap (λ x. put "pending_dispatches" (dict (put token (dict d) x)) current) same)

pub pending_of-get :
    (message token : String) (current d p : Fields)
    → get "pending_dispatches" current ≡ some (dict p)
    → pending_of message token current ≡ ok d
    → get token p ≡ some (dict d)
unfolding pending_of
pending_of-get message token current d p read h =
    next (dict_item "pending_dispatches" current) _ h (λ p' read' h1.
      let same : p' ≡ p = cc (dict_item-get "pending_dispatches" current p' read', read) in
      ap (get token) (sym same)
      ∙ get_value-get token p' d (as_dict-some _ d (expect-some _ _ d h1)))

-- A pending dispatch, as the state holds it.
pub pending_of-read :
    (message token : String) (current d : Fields)
    → pending_of message token current ≡ ok d
    → (p : Fields) × (get "pending_dispatches" current ≡ some (dict p))
      × (get token p ≡ some (dict d))
unfolding pending_of
pending_of-read message token current d h =
    next (dict_item "pending_dispatches" current) _ h (λ p read h1. (
      p,
      dict_item-get "pending_dispatches" current p read,
      get_value-get token p d (as_dict-some _ d (expect-some _ _ d h1)),
    ))

pub add_pending_dispatch-put :
    (current new p : Fields) (i : RoleInvocation) (prompt schema preflight request : ArtifactRef)
    → get "pending_dispatches" current ≡ some (dict p)
    → add_pending_dispatch current i prompt schema preflight request ≡ ok new
    → (n : ℕ) × (new
        ≡ put "pending_dispatches"
            (dict (put i.attempt_token (dict (new_dispatch n i prompt schema preflight request)) p))
            current)
unfolding add_pending_dispatch
add_pending_dispatch-put current new p i prompt schema preflight request read h =
    next (dict_item "pending_dispatches" current) _ h (λ p' read' h1.
      next (reject_if (contains i.attempt_token (keys p')) "attempt token already prepared") _ h1
        (λ _ _ h2. next (revision_of current) _ h2 (λ n _ h3.
          let same : p' ≡ p = cc (dict_item-get "pending_dispatches" current p' read', read) in
          (
            n,
            sym (ok-injective h3)
                ∙ ap
                    (λ x.
                      put "pending_dispatches"
                        (dict (
                          put i.attempt_token
                            (dict (new_dispatch n i prompt schema preflight request)) x))
                        current)
                    same,
          ))))
