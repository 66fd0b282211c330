-- ===== src/Post/Sources.antt =====
-- The sources of reposts: a post that names a source names an original, whatever its author named.
use lino.Sdk.{Sdk}
use lino.Prelude.{
  String, ◌≡◌, inl, some, inr, true, Bool-cases, none, if◌then◌else◌, str_eq, ◌⊎◌, sym, ◌∙◌, ap,
  false, subst, eq_iff, ◌≢◌, ◌||◌,
}
use lino.Post.Store.{PostStore, PostInfo, permlink_of}
use lino.Post.Manager.{has_no_source}
use lino.Prelude.Table.{insert, string_key, get-insert}

some_inj : {A : Type 0} {a b : A} → some a ≡ some b → a ≡ b
some_inj h = cc

pub nothing_there : {A : Type 0} {a : A} → none ≢ some a
nothing_there h = cc

module _ ⦃sdk : Sdk⦄ where
  open sdk use {Rat}

  -- The post stands there and has no source itself.
  abbrev pub IsOriginal : String → String → PostStore → Type 0
  IsOriginal author post_id s =
      (src : PostInfo) × (s.infos (permlink_of author post_id) ≡ some src)
      × (has_no_source src ≡ true)

  -- What holds of the post `info` at `permlink`.
  abbrev pub IsFiled : String → PostInfo → PostStore → Type 0
  IsFiled permlink info s =
      (permlink_of info.author info.post_id ≡ permlink)
      × ((has_no_source info ≡ true) ⊎ IsOriginal info.source_author info.source_post_id s)

  -- Every post stands at its own permlink, and its source, where it has one, is an original.
  unfoldable pub IsSourced : PostStore → Type 0
  IsSourced s =
      (permlink : String) (info : PostInfo) → s.infos permlink ≡ some info → IsFiled permlink info s

  -- Originals stay originals.
  abbrev pub KeepsOriginals : PostStore → PostStore → Type 0
  KeepsOriginals s s' =
      (permlink : String) (src : PostInfo)
      → s.infos permlink ≡ some src
      → has_no_source src ≡ true
      → (src' : PostInfo) × (s'.infos permlink ≡ some src') × (has_no_source src' ≡ true)

  pub refiled :
      (permlink : String) (info : PostInfo) (s s' : PostStore)
      → KeepsOriginals s s'
      → IsFiled permlink info s
      → IsFiled permlink info s'
  refiled permlink info s s' keeps (own, inl none_named) = (own, inl none_named)
  refiled permlink info s s' keeps (own, inr (src, there, original)) =
      (own, inr (keeps (permlink_of info.source_author info.source_post_id) src there original))

  reads :
      (permlink k : String) (new : PostInfo) (s s' : PostStore)
      → s'.infos ≡ insert permlink new s.infos
      → s'.infos k ≡ (if str_eq permlink k then some new else s.infos k)
  reads permlink k new s s' same = ap (λ t. t k) same ∙ get-insert permlink new s.infos k

  -- At the permlink itself, and at another one.
  reads_here :
      (permlink k : String) (new : PostInfo) (s s' : PostStore)
      → s'.infos ≡ insert permlink new s.infos
      → str_eq permlink k ≡ true
      → s'.infos k ≡ some new
  reads_here permlink k new s s' same here =
      reads permlink k new s s' same ∙ ap (λ b. if b then some new else s.infos k) here

  reads_elsewhere :
      (permlink k : String) (new : PostInfo) (s s' : PostStore)
      → s'.infos ≡ insert permlink new s.infos
      → str_eq permlink k ≡ false
      → s'.infos k ≡ s.infos k
  reads_elsewhere permlink k new s s' same elsewhere =
      reads permlink k new s s' same ∙ ap (λ b. if b then some new else s.infos k) elsewhere

  -- One post is written, and is filed rightly afterwards.
  pub written :
      (permlink : String) (new : PostInfo) (s s' : PostStore)
      → s'.infos ≡ insert permlink new s.infos
      → KeepsOriginals s s'
      → IsFiled permlink new s'
      → IsSourced s
      → IsSourced s'
  unfolding IsSourced
  written permlink new s s' same keeps filed sound k info e =
      elim (Bool-cases (str_eq permlink k)) [
        | inl here ↦
            let new_info : new ≡ info =
              some_inj (sym (reads_here permlink k new s s' same here) ∙ e) in
            subst (λ j. IsFiled j info s') ((eq_iff permlink k).0 here)
              (subst (λ i. IsFiled permlink i s') new_info filed)
        | inr elsewhere ↦
            refiled k info s s' keeps
              (sound k info (sym (reads_elsewhere permlink k new s s' same elsewhere) ∙ e))
      ]

  edited_keeps :
      (permlink : String) (old new : PostInfo) (s s' : PostStore)
      → s'.infos ≡ insert permlink new s.infos
      → s.infos permlink ≡ some old
      → has_no_source new ≡ has_no_source old
      → KeepsOriginals s s'
  edited_keeps permlink old new s s' same e sources k src there original =
      elim (Bool-cases (str_eq permlink k)) [
        | inl here ↦
            let is_src : old ≡ src =
              some_inj (sym e ∙ ap s.infos ((eq_iff permlink k).0 here) ∙ there) in
            (
              new,
              reads_here permlink k new s s' same here,
              sources ∙ ap has_no_source is_src ∙ original,
            )
        | inr elsewhere ↦
            (src, reads_elsewhere permlink k new s s' same elsewhere ∙ there, original)
      ]

  pub created_keeps :
      (permlink : String) (new : PostInfo) (s s' : PostStore)
      → s'.infos ≡ insert permlink new s.infos
      → s.infos permlink ≡ none
      → KeepsOriginals s s'
  created_keeps permlink new s s' same e k src there original =
      elim (Bool-cases (str_eq permlink k)) [
        | inl here ↦
            absurd (nothing_there (sym e ∙ ap s.infos ((eq_iff permlink k).0 here) ∙ there))
        | inr elsewhere ↦
            (src, reads_elsewhere permlink k new s s' same elsewhere ∙ there, original)
      ]

  pub unmoved : (s s' : PostStore) → s'.infos ≡ s.infos → IsSourced s → IsSourced s'
  unfolding IsSourced
  unmoved s s' same sound k info e =
      refiled k info s s' (λ j src there original. (src, ap (λ t. t j) same ∙ there, original))
        (sound k info (sym (ap (λ t. t k) same) ∙ e))

  -- A post is written anew under its own name, with the source that it has.
  pub edited :
      (permlink : String) (old new : PostInfo) (s s' : PostStore)
      → s.infos permlink ≡ some old
      → s'.infos ≡ insert (permlink_of new.author new.post_id) new s.infos
      → new.author ≡ old.author
      → new.post_id ≡ old.post_id
      → new.source_author ≡ old.source_author
      → new.source_post_id ≡ old.source_post_id
      → IsSourced s
      → IsSourced s'
  unfolding IsSourced
  edited permlink old new s s' e same a p sa sp sound =
      let filed = sound permlink old e in
      let own : permlink_of new.author new.post_id ≡ permlink =
        ap (λ x. permlink_of x new.post_id) a ∙ ap (λ x. permlink_of old.author x) p ∙ filed.0 in
      let sources : has_no_source new ≡ has_no_source old =
        ap (λ x. str_eq x "" || str_eq new.source_post_id "") sa
        ∙ ap (λ x. str_eq old.source_author "" || str_eq x "") sp in
      let at_own = same ∙ ap (λ k. insert k new s.infos) own in
      let keeps = edited_keeps permlink old new s s' at_own e sources in
      written permlink new s s' at_own keeps
        (
          own,
          elim (refiled permlink old s s' keeps filed).1 [
            | inl none_named ↦ inl (sources ∙ none_named)
            | inr original ↦ inr (
                subst (λ x. IsOriginal x new.source_post_id s') (sym sa)
                  (subst (λ x. IsOriginal old.source_author x s') (sym sp) original))
          ],
        )
        sound
