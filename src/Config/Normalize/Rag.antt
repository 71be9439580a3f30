-- ===== src/Config/Normalize/Rag.antt =====
-- The normal form of a RAG search's configuration.
use relay_workflow_automatio.Prelude.{
  true, false, not, ◌||◌, refl, ◌&&◌, String, ◌==◌, ◌≡◌, arith, eq_iff, inl, inr, Bool-cases,
  if◌then◌else◌,
}
use relay_workflow_automatio.Js.{
  Value, undefined, null, bool, num, str, arr, obj, Fields, get, has_own, is_nullish, or_nullish,
}
use relay_workflow_automatio.Js.Laws.{get-put, get-remove, has_own-put, has_own-remove}
use relay_workflow_automatio.Config.Normalize.{
  rag_knowledge_base_id, rag_agrees, normalize_rag_configuration,
}

-- What each property of the normal form is.
get-normalize :
    (config : Fields) (key : String)
    → get (normalize_rag_configuration (obj config)) key ≡ (
        if "workspace_id" == key
        then undefined
        else if rag_agrees config && "knowledge_base" == key
        then undefined
        else if "knowledge_base_id" == key
        then or_nullish (rag_knowledge_base_id config) (str "")
        else get config key)
unfolding normalize_rag_configuration
get-normalize config key = elim (Bool-cases (rag_agrees config)) [
  | inl agrees ↦
      rw agrees (simp (get-remove, get-put) (ground (arith, eq_iff "knowledge_base" key)))
  | inr differs ↦ rw differs (simp (get-remove, get-put))
]

has_own-normalize :
    (config : Fields) (key : String)
    → has_own (normalize_rag_configuration (obj config)) key ≡ (
        not ("workspace_id" == key)
        && (not (rag_agrees config && "knowledge_base" == key)
            && ("knowledge_base_id" == key || has_own config key)))
unfolding normalize_rag_configuration
has_own-normalize config key = elim (Bool-cases (rag_agrees config)) [
  | inl agrees ↦ rw agrees (simp (has_own-remove, has_own-put) (ground arith))
  | inr differs ↦ rw differs (simp (has_own-remove, has_own-put) (ground arith))
]

or_nullish_idem : (v : Value) → or_nullish (or_nullish v (str "")) (str "") ≡ or_nullish v (str "")
or_nullish_idem undefined = refl
or_nullish_idem null = refl
or_nullish_idem (bool b) = refl
or_nullish_idem (num n) = refl
or_nullish_idem (str s) = refl
or_nullish_idem (arr xs) = refl
or_nullish_idem (obj fs) = refl

or_nullish_known : (v : Value) → is_nullish v ≡ false → or_nullish v (str "") ≡ v
or_nullish_known undefined h = ground (arith, h)
or_nullish_known null h = ground (arith, h)
or_nullish_known (bool b) h = refl
or_nullish_known (num n) h = refl
or_nullish_known (str s) h = refl
or_nullish_known (arr xs) h = refl
or_nullish_known (obj fs) h = refl

module _ (config : Fields) where
  abbrev normal : Fields
  normal = normalize_rag_configuration (obj config)

  own_id : has_own normal "knowledge_base_id" ≡ true
  own_id = rw (has_own-normalize config "knowledge_base_id") (ground arith)

  own_base :
      has_own normal "knowledge_base" ≡ (not (rag_agrees config) && has_own config "knowledge_base")
  own_base = rw (has_own-normalize config "knowledge_base") (ground arith)

  normal_id : get normal "knowledge_base_id" ≡ or_nullish (rag_knowledge_base_id config) (str "")
  normal_id = rw (get-normalize config "knowledge_base_id") (ground arith)

  normal_base :
      rag_agrees config ≡ false → get normal "knowledge_base" ≡ get config "knowledge_base"
  normal_base differs = rw (get-normalize config "knowledge_base") (rw differs refl)

  id_of_normal : rag_knowledge_base_id normal ≡ or_nullish (rag_knowledge_base_id config) (str "")
  unfolding rag_knowledge_base_id
  id_of_normal = rw own_id normal_id

  agrees_again : rag_agrees config ≡ true → rag_agrees normal ≡ true
  unfolding rag_agrees
  agrees_again agrees = ground (arith, own_id, own_base, agrees)

  differs_again :
      rag_agrees config ≡ false
      → is_nullish (get config "knowledge_base_id") ≡ false
      → rag_agrees normal ≡ false
  unfolding rag_agrees rag_knowledge_base_id
  differs_again differs known = ground (
    arith,
    differs,
    own_id,
    own_base,
    normal_id,
    normal_base differs,
    or_nullish_known (get config "knowledge_base_id") known,
  )

  -- If a knowledge base id that is missing or null is no conflict, then normalizing a configuration a
  -- second time changes none of its properties.
  pub get-normalize_idem :
      (key : String)
      → (is_nullish (get config "knowledge_base_id") ≡ true → rag_agrees config ≡ true)
      → get (normalize_rag_configuration (obj normal)) key ≡ get normal key
  get-normalize_idem key settled = elim (Bool-cases (rag_agrees config)) [
    | inl agrees ↦ ground (
      arith,
      agrees,
      agrees_again agrees,
      get-normalize normal key,
      get-normalize config key,
      id_of_normal,
      or_nullish_idem (rag_knowledge_base_id config),
    )
    | inr differs ↦ ground (
      arith,
      differs,
      differs_again differs (ground arith),
      get-normalize normal key,
      get-normalize config key,
      id_of_normal,
      or_nullish_idem (rag_knowledge_base_id config),
    )
  ]
