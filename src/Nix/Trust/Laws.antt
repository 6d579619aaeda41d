-- ===== src/Nix/Trust/Laws.antt =====
-- crates/drv-thru/src/nix.rs: when an import is trusted, and what an import runs.
use drv_thru.Base.{
  ◌≤◌, ◌≡◌, ◌⊎◌, inl, inr, refl, sym, ap, ◌∙◌, Bool, true, false, List, [], ◌∷◌, ◌++◌, Result, ok,
  err, map, arith, All, length, Bool-cases,
}
use drv_thru.Text.{Text, codes, is_empty, trim}
use drv_thru.TextMap.{member}
use drv_thru.Nix.StorePath.{StorePath, texts}
use drv_thru.Nix.Queries.{Programs, NixError, path_arg_chunk_size, rejected}
use drv_thru.Nix.Trust.{
  SignedCacheImportTrust, can_pass_public_key, key_already_trusted, current_uid_is_root,
  current_user_name, current_group_names, nix_config_values, trusted_users_allow_user,
  signed_cache_import_allowed, signed_cache_import_trust, Issued, issue, copy_chunks,
  copy_from_front, copy_from_signed_binary_cache, explain,
}
use drv_thru.Protocol.PathChunks.Chunks.{chunks, concat, concat-chunks, chunks-All}

-- Where the key is not blank, and the user, the groups and the configuration of Nix can be read,
-- `signed_cache_import_trust` gives a result exactly if `signed_cache_import_allowed`, the function
-- of the source's tests, allows the import, and rejects the import otherwise.
pub trust-allowed :
    (run : Programs) (public_key user : Text) (is_root : Bool) (groups users keys : List Text)
    → is_empty (trim public_key) ≡ false
    → current_uid_is_root run ≡ ok is_root
    → current_user_name run ≡ ok user
    → current_group_names run ≡ ok groups
    → nix_config_values run (codes "trusted-users") ≡ ok users
    → nix_config_values run (codes "trusted-public-keys") ≡ ok keys
    → ((trust : SignedCacheImportTrust) × (signed_cache_import_trust run public_key ≡ ok trust)
        × (signed_cache_import_allowed is_root user groups users keys public_key ≡ true))
      ⊎ ((signed_cache_import_trust run public_key ≡ err rejected)
          × (signed_cache_import_allowed is_root user groups users keys public_key ≡ false))
unfolding signed_cache_import_trust signed_cache_import_allowed
trust-allowed run public_key user true groups users keys n u v w x y =
    inl (can_pass_public_key, rw (n, u) refl, refl)
trust-allowed run public_key user false groups users keys n u v w x y =
    elim (Bool-cases (trusted_users_allow_user users user groups)) [
      | inl e ↦ inl (can_pass_public_key, rw (n, u, v, w, x, e) refl, rw e refl)
      | inr e ↦ elim (Bool-cases (member (trim public_key) keys)) [
        | inl m ↦ inl (key_already_trusted, rw (n, u, v, w, x, e, y, m) refl, rw (e, m) refl)
        | inr m ↦ inr (rw (n, u, v, w, x, e, y, m) refl, rw (e, m) refl)
      ]
    ]

-- The commands of a copy, one for each chunk.
abbrev pub commands_of : List Text → List (List StorePath) → List (List Text)
commands_of front parts = map (λ part. front ++ texts part) parts

issue-ok :
    (args : List Text) (r : Result NixError (Unit {0})) (rest : Issued) (issued : List (List Text))
    → issue args r rest ≡ (issued, ok tt)
    → (rest.1 ≡ ok tt) × (issued ≡ args ∷ rest.0)
issue-ok args (ok u) rest issued h = (ap (λ p. p.1) h, sym (ap (λ p. p.0) h))
issue-ok args (err e) rest issued h = absurd (ground (arith, ap (λ p. p.1) h))

copy_chunks-commands_of :
    (run : Programs) (explained : NixError → NixError) (front : List Text)
    (parts : List (List StorePath)) (issued : List (List Text))
    → copy_chunks run explained front parts ≡ (issued, ok tt)
    → issued ≡ commands_of front parts
unfolding copy_chunks
copy_chunks-commands_of run explained front [] issued h = sym (ap (λ p. p.0) h)
copy_chunks-commands_of run explained front (part ∷ parts) issued h =
    let rest = copy_chunks run explained front parts in
    let (fine, e) = issue-ok (front ++ texts part) _ rest issued h in
    e
    ∙ ap (◌∷◌ (front ++ texts part))
        (copy_chunks-commands_of run explained front parts rest.0 (ap (λ r. (rest.0, r)) fine))

-- An import that succeeds has run `nix copy --from` on rows of at most 512 paths that are together
-- the paths, in their order; where the key may be passed, each command requires signatures and
-- trusts that key alone.
pub copy_from-commands_of :
    (run : Programs) (show : NixError → Text) (cache_url public_key : Text)
    (trust : SignedCacheImportTrust) (paths : List StorePath) (issued : List (List Text))
    → copy_from_signed_binary_cache run show cache_url public_key trust paths ≡ (issued, ok tt)
    → (parts : List (List StorePath)) × (issued
        ≡ commands_of (copy_from_front cache_url (trim public_key) trust) parts)
      × (concat parts ≡ paths)
      × All (λ part. length part ≤ 512) parts
unfolding copy_from_signed_binary_cache
copy_from-commands_of run show cache_url public_key trust [] issued h =
    ([], sym (ap (λ p. p.0) h), refl, tt)
copy_from-commands_of run show cache_url public_key trust (p ∷ paths) issued h =
    elim (Bool-cases (is_empty (trim public_key))) [
      | inl e ↦ absurd (ground (arith, ap (λ r. r.1) (rw e at h)))
      | inr e ↦ (
        chunks path_arg_chunk_size (p ∷ paths),
        copy_chunks-commands_of run (explain show)
            (copy_from_front cache_url (trim public_key) trust)
            (chunks path_arg_chunk_size (p ∷ paths)) issued (rw e at h),
        concat-chunks path_arg_chunk_size (p ∷ paths) (omega arith),
        chunks-All path_arg_chunk_size (p ∷ paths),
      )
    ]
