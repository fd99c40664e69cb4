-- ===== src/Security/PostQuantum/Rotation.antt =====
-- The versions of a key: what the repository and the service keep true while keys are created,
-- rotated and retired.
use allas_code_blueprint.Prelude.{
  String, ◌≡◌, refl, sym, ap, subst, ◌∙◌, inl, inr, Bool, true, false, Bool-cases, Option-cases,
  Option, none, some, [], ◌∷◌, ℕ, ◌+◌, nat_eq, leb, ◌==◌, eq_iff, arith, if◌then◌else◌, or_else,
}
use allas_code_blueprint.Prelude.Dict.{Dict, get, put, get-put, get-put_self}
use allas_code_blueprint.Security.PostQuantum.{
  ok, PqKeyState, active, decrypt_only, retired, PqKeyRecord, Versions, version_at, set_version,
  Repository, get_key, get_active, save_initial, has_version, commit_rotation, retire_key, Crypto,
}
use allas_code_blueprint.Security.PostQuantum.Service.{
  PqService, is_version, describe, generate_record, create_key_set, rotate, retire,
}

version_at-set_version :
    (v w : ℕ) (r : PqKeyRecord) (m : Versions)
    → version_at w (set_version v r m) ≡ (if nat_eq v w then some r else version_at w m)
unfolding version_at set_version
version_at-set_version v w r [] = refl
version_at-set_version v w r ((u, q) ∷ m) = ground (arith, version_at-set_version v w r m)

get_key-put :
    (k j : String) (w : ℕ) (m : Versions) (keys : Dict Versions) (act act' : Dict ℕ)
    → get_key j w (record { keys = put k m keys; active_versions = act }) ≡ (
        if k == j
        then version_at w m
        else get_key j w (record { keys = keys; active_versions = act' }))
unfolding get_key
get_key-put k j w m keys act act' = ground (arith, get-put k j m keys)

abbrev pub is_active : PqKeyState → Bool
is_active active = true
is_active decrypt_only = false
is_active retired = false

abbrev pub reaches : Option ℕ → ℕ → Bool
reaches none v = false
reaches (some a) v = leb v a

-- The record found for a version is that version's, it is active just when the version is the
-- current one, and no version is above the current one; the current version has a record.
abbrev pub Fits : String → ℕ → Option ℕ → Option PqKeyRecord → Type 0
Fits k v current none = has_version current v ≡ false
Fits k v current (some r) =
    (r.key_id ≡ k)
    × (r.version ≡ v)
    × (is_active r.state ≡ has_version current v)
    × (reaches current v ≡ true)

abbrev pub IsKept : Repository → Type 0
IsKept repository =
    (k : String) (v : ℕ) → Fits k v (get k repository.active_versions) (get_key k v repository)

save_initial-IsKept :
    (r : PqKeyRecord) (repository : Repository)
    → is_active r.state ≡ true
    → IsKept repository
    → IsKept (save_initial r repository).1
unfolding save_initial version_at
save_initial-IsKept r repository fresh kept k v =
    let here = kept k v in
    let act = put r.key_id r.version repository.active_versions in
    ground (
      arith,
      get-put r.key_id k r.version repository.active_versions,
      get_key-put r.key_id k v ((r.version, r) ∷ []) repository.keys act repository.active_versions,
      eq_iff r.key_id k,
    )

commit_rotation-IsKept :
    (previous_version : ℕ) (next : PqKeyRecord) (repository : Repository)
    → is_active next.state ≡ true
    → leb next.version previous_version ≡ false
    → IsKept repository
    → IsKept (commit_rotation previous_version next repository).1
unfolding commit_rotation get_key
commit_rotation-IsKept previous_version next repository fresh above kept k v =
    let old = or_else (get next.key_id repository.keys) [] in
    elim (Option-cases (version_at previous_version old)) [
      | inl missing ↦ let here = kept k v in ground arith
      | inr (previous, found) ↦
          let here = kept k v in
          let there = kept next.key_id previous_version in
          let demoted = record previous { state = decrypt_only } in
          let middle = set_version previous_version demoted old in
          ground (
            arith,
            get-put next.key_id k next.version repository.active_versions,
            get-put next.key_id k (set_version next.version next middle) repository.keys,
            version_at-set_version next.version v next middle,
            version_at-set_version previous_version v demoted old,
            eq_iff next.key_id k,
          )
    ]

retire_key-IsKept :
    (key_id : String) (version : ℕ) (repository : Repository)
    → IsKept repository
    → IsKept (retire_key key_id version repository).1
unfolding retire_key get_key
retire_key-IsKept key_id version repository kept k v =
    let old = or_else (get key_id repository.keys) [] in
    elim (Option-cases (version_at version old)) [
      | inl missing ↦ let here = kept k v in ground arith
      | inr (r, found) ↦
          let here = kept k v in
          let there = kept key_id version in
          let gone = record r { state = retired } in
          ground (
            arith,
            get-put key_id k (set_version version gone old) repository.keys,
            version_at-set_version version v gone old,
            eq_iff key_id k,
          )
    ]

commit_rotation-commits :
    (key_id : String) (old next : PqKeyRecord) (repository : Repository)
    → next.key_id ≡ key_id
    → next.version ≡ old.version + 1
    → get_key key_id old.version repository ≡ some old
    → get key_id repository.active_versions ≡ some old.version
    → let (done, after) = commit_rotation old.version next repository in
      (done ≡ true)
      × (get_active key_id after ≡ some next)
      × (get_key key_id old.version after ≡ some (record old { state = decrypt_only }))
unfolding commit_rotation get_key get_active
commit_rotation-commits key_id old next repository named numbered stored current =
    let versions = or_else (get key_id repository.keys) [] in
    let demoted = record old { state = decrypt_only } in
    let middle = set_version old.version demoted versions in
    let active_stored = get-put_self key_id next.version repository.active_versions in
    let keys_stored = get-put_self key_id (set_version next.version next middle) repository.keys in
    let one = version_at-set_version next.version next.version next middle in
    let two = version_at-set_version next.version old.version next middle in
    let three = version_at-set_version old.version old.version demoted versions in ground arith

module _ (crypto : Crypto) where
  generate_record-fresh :
      (seed key_id now : String) (version : ℕ) (r : PqKeyRecord)
      → generate_record crypto seed key_id version now ≡ some r
      → (is_active r.state ≡ true) × (r.version ≡ version) × (r.key_id ≡ key_id)
  unfolding generate_record
  generate_record-fresh seed key_id now version r h = ground arith

  create_key_set-IsKept :
      (seed key_id now : String) (service : PqService)
      → IsKept service.keys
      → IsKept (create_key_set crypto seed key_id now service).1.keys
  unfolding create_key_set
  create_key_set-IsKept seed key_id now service kept =
      let after = (create_key_set crypto seed key_id now service).1.keys in
      let same : after ≡ service.keys → IsKept after = λ e. subst IsKept (sym e) kept in
      elim (Option-cases (get_active key_id service.keys)) [
        | inr (old, there) ↦ same (ground arith)
        | inl free ↦ elim (Option-cases (generate_record crypto seed key_id 1 now)) [
          | inl failed ↦ same (ground arith)
          | inr (r, made) ↦
              let e : after ≡ (save_initial r service.keys).1 = ground arith in
              let (fresh, _, _) = generate_record-fresh seed key_id now 1 r made in
              subst IsKept (sym e) (save_initial-IsKept r service.keys fresh kept)
        ]
      ]

  active-version :
      (key_id : String) (repository : Repository) (r : PqKeyRecord)
      → IsKept repository
      → get_active key_id repository ≡ some r
      → get key_id repository.active_versions ≡ some r.version
  unfolding get_active
  active-version key_id repository r kept h =
      elim (Option-cases (get key_id repository.active_versions)) [
        | inl missing ↦ ground arith
        | inr (v, there) ↦ let here = kept key_id v in ground arith
      ]

  rotate-IsKept :
      (seed key_id now : String) (service : PqService)
      → IsKept service.keys
      → IsKept (rotate crypto seed key_id now service).1.keys
  unfolding rotate
  rotate-IsKept seed key_id now service kept =
      let after = (rotate crypto seed key_id now service).1.keys in
      let same : after ≡ service.keys → IsKept after = λ e. subst IsKept (sym e) kept in
      elim (Option-cases (get_active key_id service.keys)) [
        | inl missing ↦ same (ground arith)
        | inr (old, there) ↦
            elim (Option-cases (generate_record crypto seed key_id (old.version + 1) now)) [
              | inl failed ↦ same (ground arith)
              | inr (next, made) ↦
                  let e : after ≡ (commit_rotation old.version next service.keys).1 =
                    ground arith in
                  let (fresh, numbered, _) =
                    generate_record-fresh seed key_id now (old.version + 1) next made in
                  subst IsKept (sym e) (
                    commit_rotation-IsKept old.version next service.keys fresh
                      (rw numbered (ground arith)) kept)
            ]
      ]

  active-stored :
      (key_id : String) (repository : Repository) (r : PqKeyRecord)
      → IsKept repository
      → get_active key_id repository ≡ some r
      → get_key key_id r.version repository ≡ some r
  unfolding get_active
  active-stored key_id repository r kept h =
      let current = active-version key_id repository r kept h in ground arith

  retire-IsKept :
      (key_id now : String) (version : ℕ) (service : PqService)
      → IsKept service.keys
      → IsKept (retire key_id version now service).1.keys
  unfolding retire
  retire-IsKept key_id now version service kept =
      let after = (retire key_id version now service).1.keys in
      elim (Bool-cases (is_version (get_active key_id service.keys) version)) [
        | inl current ↦ let e : after ≡ service.keys = ground arith in subst IsKept (sym e) kept
        | inr older ↦
            let e : after ≡ (retire_key key_id version service.keys).1 = ground arith in
            subst IsKept (sym e) (retire_key-IsKept key_id version service.keys kept)
      ]

  -- Create, rotate and retire, whatever they answer, keep the versions of every key in order: the
  -- current version has the one active record, every stored version holds its own record and none
  -- is above the current one.
  pub service-IsKept :
      (seed key_id now : String) (version : ℕ) (service : PqService)
      → IsKept service.keys
      → IsKept (create_key_set crypto seed key_id now service).1.keys
        × IsKept (rotate crypto seed key_id now service).1.keys
        × IsKept (retire key_id version now service).1.keys
  service-IsKept seed key_id now version service kept = (
    create_key_set-IsKept seed key_id now service kept,
    rotate-IsKept seed key_id now service kept,
    retire-IsKept key_id now version service kept,
  )

  -- A rotation of a kept key answers with the next version, which is the active key afterwards; the
  -- version before it stays in the repository and can decrypt only.
  rotate-succeeds :
      (seed key_id now : String) (service : PqService) (old next : PqKeyRecord)
      → IsKept service.keys
      → get_active key_id service.keys ≡ some old
      → generate_record crypto seed key_id (old.version + 1) now ≡ some next
      → let (result, after) = rotate crypto seed key_id now service in
        (result ≡ ok (describe crypto next))
        × (get_active key_id after.keys ≡ some next)
        × (get_key key_id old.version after.keys ≡ some (record old { state = decrypt_only }))
  unfolding rotate
  rotate-succeeds seed key_id now service old next kept there made =
      let current = active-version key_id service.keys old kept there in
      let (_, numbered, named) =
        generate_record-fresh seed key_id now (old.version + 1) next made in
      let stored = active-stored key_id service.keys old kept there in
      let (done, promoted, demoted) =
        commit_rotation-commits key_id old next service.keys named numbered stored current in
      let e : (rotate crypto seed key_id now service).0 ≡ ok (describe crypto next) =
        ground arith in
      let keys : (rotate crypto seed key_id now service).1.keys
          ≡ (commit_rotation old.version next service.keys).1 =
        ground arith in
      (e, ap (get_active key_id) keys ∙ promoted, ap (get_key key_id old.version) keys ∙ demoted)
