-- ===== src/Api/Parser/Mentions.antt =====
-- Every account that a delivery mentions is found, however deep it stands.
use text.Mathlib.Text.{◌==◌}
use riskrail.Base.{
  ◌≡◌, refl, ap, ◌∙◌, Bool, true, not, ◌&&◌, ◌||◌, String, List, [], ◌∷◌, ◌++◌, any, any-append,
  keep, Bool-cases, ◌⊎◌, inl, inr, eq_iff, arith,
}
use riskrail.Base.Text.{distinct}
use riskrail.Value.{Value, str, array, object, Items, cons, Fields, field}
use riskrail.Api.Parser.{
  ChainhookBlock, ChainhookPayload, apply_of, rollback_of, collect_principals, collect_items,
  collect_fields, collect_all, collect_blocks, extract_affected,
}

abbrev pub among : String → List String → Bool
among a texts = any (λ t. t == a) texts

among-keep :
    (a s : String) (texts : List String)
    → among a (keep (λ t. not (t == s)) texts) ≡ (among a texts && not (a == s))
among-keep a s [] = refl
among-keep a s (t ∷ texts) = elim (Bool-cases (t == a)) [
  | inl e ↦ ground (arith, e, ap (λ u. u == s) ((eq_iff t a).0 e), among-keep a s texts)
  | inr e ↦ ground (arith, e, among-keep a s texts)
]

among-distinct : (a : String) (texts : List String) → among a (distinct texts) ≡ among a texts
unfolding distinct
among-distinct a [] = refl
among-distinct a (s ∷ texts) = elim (Bool-cases (s == a)) [
  | inl e ↦ ground (arith, e)
  | inr e ↦
      ground
        (arith, e, among-keep a s (distinct texts), among-distinct a texts, eq_iff s a, eq_iff a s)
]

or_true : {b : Bool} (c : Bool) → b ≡ true → (c || b) ≡ true
or_true c h = ground (arith, h)

-- An account stands in a value: in one of its texts, at any depth.
module _ (principals : String → List String) (a : String) where
  mutual
    pub data Mentions : Value → Type 0 where
      in_text : (s : String) → among a (principals s) ≡ true → Mentions (str s)
      in_array : (xs : Items) → MentionsItem xs → Mentions (array xs)
      in_object : (fs : Fields) → MentionsField fs → Mentions (object fs)

    pub data MentionsItem : Items → Type 0 where
      here_item : (x : Value) (xs : Items) → Mentions x → MentionsItem (cons x xs)
      later_item : (x : Value) (xs : Items) → MentionsItem xs → MentionsItem (cons x xs)

    pub data MentionsField : Fields → Type 0 where
      here_field :
          (k : String) (v : Value) (fs : Fields) → Mentions v → MentionsField (field k v fs)
      later_field :
          (k : String) (v : Value) (fs : Fields) → MentionsField fs → MentionsField (field k v fs)

  pub data MentionsTransaction : List Value → Type 0 where
    here_tx : (tx : Value) (txs : List Value) → Mentions tx → MentionsTransaction (tx ∷ txs)
    later_tx :
        (tx : Value) (txs : List Value) → MentionsTransaction txs → MentionsTransaction (tx ∷ txs)

  pub data MentionsBlock : List ChainhookBlock → Type 0 where
    here_block :
        (b : ChainhookBlock) (bs : List ChainhookBlock)
        → MentionsTransaction b.transactions
        → MentionsBlock (b ∷ bs)
    later_block :
        (b : ChainhookBlock) (bs : List ChainhookBlock) → MentionsBlock bs → MentionsBlock (b ∷ bs)

  mutual
    unfolding collect_principals

    among-collect_principals :
        (v : Value) → Mentions v → among a (collect_principals principals v) ≡ true
    among-collect_principals v (in_text s h) = h
    among-collect_principals v (in_array xs h) = among-collect_items xs h
    among-collect_principals v (in_object fs h) = among-collect_fields fs h

    among-collect_items :
        (xs : Items) → MentionsItem xs → among a (collect_items principals xs) ≡ true
    among-collect_items xs (here_item y ys h) = rw (
      any-append (λ t. t == a) (collect_principals principals y) (collect_items principals ys),
      among-collect_principals y h,
    )
    among-collect_items xs (later_item y ys h) =
        any-append (λ t. t == a) (collect_principals principals y) (collect_items principals ys)
        ∙ or_true _ (among-collect_items ys h)

    among-collect_fields :
        (fs : Fields) → MentionsField fs → among a (collect_fields principals fs) ≡ true
    among-collect_fields fs (here_field k v gs h) = rw (
      any-append (λ t. t == a) (collect_principals principals v) (collect_fields principals gs),
      among-collect_principals v h,
    )
    among-collect_fields fs (later_field k v gs h) =
        any-append (λ t. t == a) (collect_principals principals v) (collect_fields principals gs)
        ∙ or_true _ (among-collect_fields gs h)

  among-collect_all :
      (txs : List Value) → MentionsTransaction txs → among a (collect_all principals txs) ≡ true
  unfolding collect_all
  among-collect_all txs (here_tx tx rest h) = rw (
    any-append (λ t. t == a) (collect_principals principals tx) (collect_all principals rest),
    among-collect_principals tx h,
  )
  among-collect_all txs (later_tx tx rest h) =
      any-append (λ t. t == a) (collect_principals principals tx) (collect_all principals rest)
      ∙ or_true _ (among-collect_all rest h)

  among-collect_blocks :
      (bs : List ChainhookBlock) → MentionsBlock bs → among a (collect_blocks principals bs) ≡ true
  unfolding collect_blocks
  among-collect_blocks bs (here_block b rest h) = rw (
    any-append (λ t. t == a) (collect_all principals b.transactions)
        (collect_blocks principals rest),
    among-collect_all b.transactions h,
  )
  among-collect_blocks bs (later_block b rest h) =
      any-append (λ t. t == a) (collect_all principals b.transactions)
        (collect_blocks principals rest)
      ∙ or_true _ (among-collect_blocks rest h)

  -- An account that some transaction of an applied or of a rolled back block mentions, at any depth,
  -- is among the addresses of the delivery: no wallet is left stale.
  pub extract_affected_complete :
      (payload : ChainhookPayload)
      → MentionsBlock (apply_of payload) ⊎ MentionsBlock (rollback_of payload)
      → among a (extract_affected principals payload).addresses ≡ true
  unfolding extract_affected
  extract_affected_complete payload h =
      let applied = collect_blocks principals (apply_of payload) in
      let undone = collect_blocks principals (rollback_of payload) in
      among-distinct a (applied ++ undone)
      ∙ (any-append (λ t. t == a) applied undone ∙ elim h [
        | inl k ↦ rw (among-collect_blocks (apply_of payload) k)
        | inr k ↦ or_true _ (among-collect_blocks (rollback_of payload) k)
      ])
