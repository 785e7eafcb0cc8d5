-- ===== src/Revocation/Config.antt =====
-- The reading of revoked token ids in packages/infrastructure/src/config/env.ts, and the policy that
-- starts on what was read.
use multi_agent_brain.Common.{
  String, ◌≡◌, refl, sym, ap, or_else, inl, inr, true, false, Option, none, some, List, [], ◌∷◌,
  ◌++◌, arith, string_eq, ==_iff, includes, includes-append, All-includes, All, if◌then◌else◌,
}
use multi_agent_brain.Common.Text.{trim, is_blank}
use multi_agent_brain.Common.Results.{Result, ok, err, ◌>>=◌, Result-cases, err≢ok, ok-injective}
use multi_agent_brain.Common.Maps.{to_set, includes-to_set}
use multi_agent_brain.Auth.Platform.{Platform}
use multi_agent_brain.Auth.Policy.{
  ActorAuthorizationOptions, Policy, trimmed_ids, fill_registry, create_policy, is_token_revoked,
}
use multi_agent_brain.Revocation.Store.{
  ReadOutcome, contents, missing, read_failed, Disk, Parsed, Json, StoreError, unreadable_file,
  FileStore, RevokeIssuedTokenResult, trim_entries, entries_of, usable, list_revoked_token_ids,
  revoke_token_id,
}
use multi_agent_brain.Revocation.Store.Laws.{
  IsClean, IsTokenId, ReadsBack, trim_entries-texts, includes-list, list-IsTokenId,
  revoke_token_id-IsClean,
}
use multi_agent_brain.Revocation.Restart.{IsWritten, revoked-known, revoke-IsWritten}

unfoldable parse_revoked_issued_token_id_value : Option Parsed → Result StoreError (List String)
unfolding trim_entries
parse_revoked_issued_token_id_value parsed = entries_of parsed >>= trim_entries

abbrev parse_contents : Json → ReadOutcome → Result StoreError (List String)
parse_contents j missing = ok []
parse_contents j read_failed = err unreadable_file
parse_contents j (contents raw) = parse_revoked_issued_token_id_value (j.parse raw)

unfoldable load_revoked_issued_token_ids_from_path :
    Json → Disk → Option String → Result StoreError (List String)
unfolding parse_revoked_issued_token_id_value
load_revoked_issued_token_ids_from_path j d none = ok []
load_revoked_issued_token_ids_from_path j d (some path) = parse_contents j (d.read_file path)

-- The value of `MAB_AUTH_REVOKED_ISSUED_TOKEN_IDS_JSON`.
unfoldable parse_revoked_issued_token_ids : Json → Option String → Result StoreError (List String)
unfolding parse_revoked_issued_token_id_value
parse_revoked_issued_token_ids j none = ok []
parse_revoked_issued_token_ids j (some value) =
    if is_blank (trim value) then ok [] else parse_revoked_issued_token_id_value (j.parse value)

unfoldable merge_revoked_issued_token_ids : List String → List String → List String
unfolding to_set
merge_revoked_issued_token_ids base override = to_set (base ++ override)

-- `auth.revokedIssuedTokenIds` of the environment.
unfoldable pub configured_revocations :
    Json → Disk → Option String → Option String → Result StoreError (List String)
unfolding load_revoked_issued_token_ids_from_path parse_revoked_issued_token_ids
    merge_revoked_issued_token_ids
configured_revocations j d path value = do
  base ← load_revoked_issued_token_ids_from_path j d (usable path)
  override ← parse_revoked_issued_token_ids j value
  ok (merge_revoked_issued_token_ids base override)

created_revocations :
    (pf : Platform) (options : ActorAuthorizationOptions) (ids : List String) {p : Policy}
    → options.revoked_issued_token_ids ≡ some ids
    → create_policy pf options ≡ ok p
    → p.revoked_issued_token_ids ≡ to_set (trimmed_ids ids)
unfolding create_policy
created_revocations pf options ids {p} given h =
    elim (Result-cases (fill_registry pf [] (or_else options.registry []))) [
      | inl (registry, e) ↦
          let same : to_set (trimmed_ids (or_else options.revoked_issued_token_ids []))
              ≡ p.revoked_issued_token_ids =
            ap (λ q. q.revoked_issued_token_ids) (ok-injective (rw e at h)) in
          rw given at (sym same)
      | inr (thrown, e) ↦ absurd (err≢ok (rw e at h))
    ]

includes-trimmed_ids :
    (ids : List String) (x : String)
    → trim x ≡ x
    → is_blank x ≡ false
    → includes ids x ≡ true
    → includes (trimmed_ids ids) x ≡ true
unfolding trimmed_ids
includes-trimmed_ids [] x t k h = h
includes-trimmed_ids (id ∷ ids) x t k h =
    ground (arith, includes-trimmed_ids ids x t k, ==_iff id x, ==_iff (trim id) x, t, k, h)

configured-includes :
    (j : Json) (d : Disk) (s : FileStore) (path value : Option String) (x : String)
    {ids : List String}
    → ReadsBack j (list_revoked_token_ids s)
    → All IsTokenId s.revoked_token_ids
    → IsWritten j d s (usable path)
    → configured_revocations j d path value ≡ ok ids
    → includes s.revoked_token_ids x ≡ true
    → includes ids x ≡ true
unfolding configured_revocations load_revoked_issued_token_ids_from_path
    parse_revoked_issued_token_id_value merge_revoked_issued_token_ids
configured-includes j d s path value x {ids} back clean (p, named, written) h known =
    let sorted = list-IsTokenId s clean in
    let h' = rw (named, written, back, trim_entries-texts (list_revoked_token_ids s) sorted) at h in
    elim (Result-cases (parse_revoked_issued_token_ids j value)) [
      | inl (override, e) ↦
          let same : to_set (list_revoked_token_ids s ++ override) ≡ ids =
            ok-injective (rw e at h') in
          rw
            (
              ← same,
              includes-to_set (list_revoked_token_ids s ++ override) x,
              includes-append (list_revoked_token_ids s) override x,
              includes-list s x,
              known,
            )
            refl
      | inr (thrown, e) ↦ absurd (err≢ok (rw e at h'))
    ]

-- After a revocation that was written to the file, an environment that reads that file, and a policy
-- that starts on what the environment read, refuse every id of the store, the revoked one among
-- them. Assumed: JSON reads back what was written, the store's ids are clean, and the environment and
-- the policy start.
pub revocation_reaches_new_policy :
    (j : Json) (d : Disk) (s : FileStore) (id : String) (value : Option String) (pf : Platform)
    (options : ActorAuthorizationOptions) {s' : FileStore} {d' : Disk} {r : RevokeIssuedTokenResult}
    {ids : List String} {p : Policy}
    → ReadsBack j (list_revoked_token_ids s')
    → IsClean s.revoked_token_ids
    → revoke_token_id j d s id ≡ (s', d', ok r)
    → r.persisted ≡ true
    → configured_revocations j d' s.file_path value ≡ ok ids
    → options.revoked_issued_token_ids ≡ some ids
    → create_policy pf options ≡ ok p
    → (is_token_revoked p id ≡ true)
      × ((x : String) → includes s'.revoked_token_ids (trim x) ≡ true → is_token_revoked p x ≡ true)
unfolding is_token_revoked
revocation_reaches_new_policy j d s id value pf options {s'} {d'} {r} {ids} {p} back clean h k read
      given started =
    (refuses id (revoked-known j d s id h), refuses)
  where
    refuses :
        (x : String) → includes s'.revoked_token_ids (trim x) ≡ true → is_token_revoked p x ≡ true
    refuses x known =
        let clean' = rw h at ((revoke_token_id-IsClean j d s id clean).0) in
        let (trimmed, kept) = All-includes IsTokenId s'.revoked_token_ids (trim x) clean' known in
        let merged =
          configured-includes j d' s' s.file_path value (trim x) back clean'
            (revoke-IsWritten j d s id h k) read known in
        rw
          (
            created_revocations pf options ids given started,
            includes-to_set (trimmed_ids ids) (trim x),
            includes-trimmed_ids ids (trim x) trimmed kept merged,
          )
          refl
