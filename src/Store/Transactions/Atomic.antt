-- ===== src/Store/Transactions/Atomic.antt =====
-- The run directory under the writes of src/vibe/state_store.py: what is there stays, and a state
-- that is not replaced is read as before, at every point between two writes.
use vibe_coding_harness.Prelude.{
  ℕ, String, ◌≡◌, inl, inr, Option, none, some, List, [], ◌∷◌, ◌++◌, Result, ok, err, Error, next,
  expect, expect-some, contract, map_result, Bool-cases, arith, ◌==◌,
}
use vibe_coding_harness.Prelude.Dict.{lookup}
use vibe_coding_harness.Json.{Json, Fields, dict}
use vibe_coding_harness.Models.Validation.RunState.{validate_run_state}
use vibe_coding_harness.Store.{Platform, Disk, collect_refs, artifact_refs}
use vibe_coding_harness.Store.Transactions.{
  Artifacts, Mutate, bound_body, cache_bound_artifacts, load, write_file, write_immutable, go_on,
  write_all, replace_state, commit, commit_prepared, transact, prepare_transaction,
}

-- Every file keeps its bytes.
abbrev pub Extends : Artifacts → Artifacts → Type 0
Extends files files' =
    (path body : String) → lookup path files ≡ some body → lookup path files' ≡ some body

lookup-append :
    (path p body : String) (b : String) (files : Artifacts)
    → lookup path files ≡ some body
    → lookup path (files ++ (p, b) ∷ []) ≡ some body
unfolding lookup
lookup-append path p body b [] h = cc
lookup-append path p body b ((j, w) ∷ files) h = ground (arith, lookup-append path p body b files)

write_file-Extends :
    (path body : String) (there : Option String) (files : Artifacts)
    → Extends files (write_file path body there files).1
unfolding write_file
write_file-Extends path body none files p b h = lookup-append p path b body files h
write_file-Extends path body (some there) files p b h = elim (Bool-cases (there == body)) [
  | inl same ↦ rw same h
  | inr other ↦ rw other h
]

go_on-Extends :
    (written rest : Result (Unit {0}) × Artifacts) (files : Artifacts)
    → Extends files (written.1)
    → Extends files (rest.1)
    → Extends files (go_on written rest).1
unfolding go_on
go_on-Extends (ok u, files') rest files here later = later
go_on-Extends (err e, files') rest files here later = here

pub write_all-Extends : (artifacts files : Artifacts) → Extends files (write_all artifacts files).1
unfolding write_all write_immutable
write_all-Extends [] files = λ p b h. h
write_all-Extends ((path, body) ∷ artifacts) files =
    let written = write_immutable path body files in
    let here = write_file-Extends path body (lookup path files) files in
    go_on-Extends written (write_all artifacts (written.1)) files here
      (λ p b h. write_all-Extends artifacts (written.1) p b (here p b h))

module _ (env : Platform) where
  bound_body-Extends :
      (files files' : Artifacts) (r found : String × String)
      → Extends files files'
      → bound_body env files r ≡ ok found
      → bound_body env files' r ≡ ok found
  unfolding bound_body
  bound_body-Extends files files' (path, digest) found x h =
      next (expect (lookup path files) (contract "artifact is missing")) _ h
        (λ body there rest. rw (x path body (expect-some (lookup path files) _ body there)) rest)

  map-Extends :
      (files files' : Artifacts) (refs found : List (String × String))
      → Extends files files'
      → map_result (bound_body env files) refs ≡ ok found
      → map_result (bound_body env files') refs ≡ ok found
  map-Extends files files' [] found x h = h
  map-Extends files files' (r ∷ refs) found x h = next (bound_body env files r) _ h (λ b here h1.
      next (map_result (bound_body env files) refs) _ h1 (λ bs later h2.
        rw (bound_body-Extends files files' r b x here, map-Extends files files' refs bs x later)
          h2))

  cache-Extends :
      (files files' : Artifacts) (state : Fields) (bodies : Artifacts)
      → Extends files files'
      → cache_bound_artifacts env files state ≡ ok bodies
      → cache_bound_artifacts env files' state ≡ ok bodies
  unfolding cache_bound_artifacts
  cache-Extends files files' state bodies x h =
      next (collect_refs [] (artifact_refs (dict state))) _ h
        (λ found collected h1. rw collected (map-Extends files files' found bodies x h1))

  -- A state is read as before once more files are there.
  pub load-Extends :
      (v : Option Json) (files files' : Artifacts) (state : Fields)
      → Extends files files'
      → load env (record { state = v; artifacts = files }) ≡ ok state
      → load env (record { state = v; artifacts = files' }) ≡ ok state
  unfolding load
  load-Extends v files files' state x h =
      next (expect v (contract "state.json is missing")) _ h (λ value there h1.
        next (validate_run_state env.from_isoformat value) _ h1 (λ s valid h2.
          next (cache_bound_artifacts env files s) _ h2 (λ bodies cached h3.
            rw (there, valid, cache-Extends files files' s bodies x cached) h3)))

  failed-load :
      (files : Artifacts) (old new : Fields) (v : Option Json)
      (written : Result (Unit {0}) × Artifacts) (e : Error)
      → Extends files (written.1)
      → load env (record { state = v; artifacts = files }) ≡ ok old
      → (replace_state v new written).0 ≡ err e
      → load env (replace_state v new written).1 ≡ ok old
  unfolding replace_state
  failed-load files old new v (ok u, files') e x h failed = cc
  failed-load files old new v (err e', files') e x h failed = load-Extends v files files' old x h

  commit_prepared-atomic :
      (disk : Disk) (current : Fields)
      → load env disk ≡ ok current
      → (artifacts : Artifacts) (prepared : Result Fields) (e : Error)
      → (commit_prepared artifacts disk prepared).0 ≡ err e
      → load env (commit_prepared artifacts disk prepared).1 ≡ ok current
  unfolding commit_prepared commit
  commit_prepared-atomic disk current h artifacts (err e') e failed = h
  commit_prepared-atomic disk current h artifacts (ok new) e failed =
      failed-load disk.artifacts current new disk.state (write_all artifacts disk.artifacts) e
        (write_all-Extends artifacts disk.artifacts) h failed

  -- While the artifacts of a transaction are written, and after a transaction that fails, the state
  -- is read as it was before.
  pub transact-atomic :
      (disk : Disk) (current : Fields)
      → load env disk ≡ ok current
      → ((written : Artifacts)
          → load env
              (record { state = disk.state; artifacts = (write_all written disk.artifacts).1 })
            ≡ ok current)
        × ((expected_revision : ℕ) (artifacts : Artifacts) (mutate : Mutate) (e : Error)
            → (transact env expected_revision artifacts mutate disk).0 ≡ err e
            → load env (transact env expected_revision artifacts mutate disk).1 ≡ ok current)
  unfolding transact
  transact-atomic disk current h = (
    (λ written.
        load-Extends disk.state disk.artifacts (write_all written disk.artifacts).1 current
          (write_all-Extends written disk.artifacts) h),
    (λ expected artifacts mutate e.
        commit_prepared-atomic disk current h artifacts
          (prepare_transaction env disk expected artifacts mutate) e),
  )
