-- ===== src/Post/Reposts.antt =====
-- Reposts: `CreatePost` takes the root of the source that it is given, and so the source of every post that
-- the operations of x/post/manager.go leave is an original.
use lino.Sdk.{Sdk}
use lino.Prelude.{refl, String, ◌∙◌, ap, if◌then◌else◌}
use lino.Prelude.{◌≡◌, true, false, ◌⊎◌, none, some, Bool-cases, arith, inl, inr, Option-cases}
use lino.Post.Store.{PostInfo, PostStore, permlink_of}
use lino.Post.Manager.{set_root_source_post, get_source_post, has_no_source, with_root}
use lino.Post.Sources.{IsSourced, IsOriginal}
use lino.Prelude.Exec.{err, ok, continue, pure, Result}
use lino.Types.Errors.{create_post_source_invalid, post_not_found, Error}

module _ ⦃sdk : Sdk⦄ where
  open sdk use {Rat}

  -- The post as it is stored: its own name, and no source or an original.
  abbrev pub IsRooted : PostInfo → PostInfo → PostStore → Type 0
  IsRooted info r s =
      (r.author ≡ info.author)
      × (r.post_id ≡ info.post_id)
      × ((has_no_source r ≡ true) ⊎ IsOriginal r.source_author r.source_post_id s)

  no_source :
      (info : PostInfo) (s : PostStore)
      → has_no_source info ≡ true
      → set_root_source_post info s ≡ (ok info, s)
  unfolding set_root_source_post
  no_source info s h = rw h refl

  unknown_source :
      (info : PostInfo) (s : PostStore)
      → has_no_source info ≡ false
      → s.infos (permlink_of info.source_author info.source_post_id) ≡ none
      → set_root_source_post info s ≡ (err create_post_source_invalid, s)
  unfolding set_root_source_post get_source_post
  unknown_source info s h e = ground arith

  source_of_source :
      (permlink : String) (src : PostInfo) (s : PostStore)
      → s.infos permlink ≡ some src
      → get_source_post permlink s
        ≡ (ok (if has_no_source src then ("", "") else (src.source_author, src.source_post_id)), s)
  unfolding get_source_post
  source_of_source permlink src s e =
      ap
        (λ o.
          let r : Result Error PostInfo × PostStore = elim o [
            | none ↦ (err post_not_found, s)
            | some info ↦ (ok info, s)
          ] in
          continue r.0
            (λ info.
              pure (
                if has_no_source info then ("", "") else (info.source_author, info.source_post_id)))
            r.1)
        e

  root_known :
      (info : PostInfo) (root : String × String) (s : PostStore)
      → has_no_source info ≡ false
      → get_source_post (permlink_of info.source_author info.source_post_id) s ≡ (ok root, s)
      → set_root_source_post info s ≡ (ok (with_root root info), s)
  unfolding set_root_source_post
  root_known info root s h e = rw h (rw e refl)

  original_source :
      (info src : PostInfo) (s : PostStore)
      → has_no_source info ≡ false
      → s.infos (permlink_of info.source_author info.source_post_id) ≡ some src
      → has_no_source src ≡ true
      → set_root_source_post info s ≡ (ok info, s)
  original_source info src s h e o =
      root_known info ("", "") s h
        (source_of_source (permlink_of info.source_author info.source_post_id) src s e
          ∙ ap (λ b. (ok (if b then ("", "") else (src.source_author, src.source_post_id)), s)) o)

  with_named :
      (info src : PostInfo)
      → has_no_source src ≡ false
      → with_root (src.source_author, src.source_post_id) info
        ≡ record info { source_author = src.source_author; source_post_id = src.source_post_id }
  with_named info src o = ground arith

  reposted_source :
      (info src : PostInfo) (s : PostStore)
      → has_no_source info ≡ false
      → s.infos (permlink_of info.source_author info.source_post_id) ≡ some src
      → has_no_source src ≡ false
      → set_root_source_post info s ≡ (
        ok (record info { source_author = src.source_author; source_post_id = src.source_post_id }),
        s,
      )
  reposted_source info src s h e o =
      root_known info (src.source_author, src.source_post_id) s h
        (source_of_source (permlink_of info.source_author info.source_post_id) src s e
          ∙ ap (λ b. (ok (if b then ("", "") else (src.source_author, src.source_post_id)), s)) o)
      ∙ ap (λ r. (ok r, s)) (with_named info src o)

  pub set_root_source_post_roots :
      (info : PostInfo) (s : PostStore)
      → IsSourced s
      → (set_root_source_post info s ≡ (err create_post_source_invalid, s))
        ⊎ ((r : PostInfo) × (set_root_source_post info s ≡ (ok r, s)) × IsRooted info r s)
  unfolding IsSourced
  set_root_source_post_roots info s sound = elim (Bool-cases (has_no_source info)) [
    | inl h ↦ inr (info, no_source info s h, (refl, refl, inl h))
    | inr h ↦ elim (Option-cases (s.infos (permlink_of info.source_author info.source_post_id))) [
      | inl e ↦ inl (unknown_source info s h e)
      | inr (src, e) ↦ elim (Bool-cases (has_no_source src)) [
        | inl o ↦ inr (info, original_source info src s h e o, (refl, refl, inr (src, e, o)))
        | inr o ↦
            let (own, rest) = sound (permlink_of info.source_author info.source_post_id) src e in
            inr (
              record info {
                source_author = src.source_author;
                source_post_id = src.source_post_id;
              },
              reposted_source info src s h e o,
              (refl, refl, rest),
            )
      ]
    ]
  ]
