-- ===== src/Services/Retrieval/Outcome.antt =====
-- What a search returns: the nearest rows of those that may be searched.
use pack_verse.Base.{
  ℕ, zero, suc, ◌+◌, ◌==◌, ℕ_eq, string_eq, elem, is_none, ◌≤◌, ◌≡◌, refl, sym, ap, ◌∙◌, String,
  Bool, true, Option, none, some, List, [], ◌∷◌, ◌++◌, Result, ok, err, arith, inl, inr, Bool-cases,
  Result-cases, All, keep, take, map, length, length-take, length-map,
}
use Prim.Native.Char.{Char}
use mathlib.Core.List.{Memᴰ}
use mathlib.Core.Path.{subst}
use pack_verse.Base.Table.{mem-keep, keep_of_mem, All-of_mem}
use pack_verse.Base.Table
use pack_verse.Enums.{AssetStatus, asset_status_eq}
use pack_verse.Json.{end}
use pack_verse.Base.Int.{ℤ}
use pack_verse.Base.Sorting.{sort_by, AreAscending, All-sort_by, sort_by-AreAscending, mem-sort_by}
use pack_verse.Errors.{Exn}
use pack_verse.Effects.{continue}
use pack_verse.Llm.Models.{EmbeddingResponse}
use pack_verse.Llm.Gateway.{Libraries, Gateway, embed}
use pack_verse.Services.Row.{Asset, DocumentChunk}
use pack_verse.Services.Store.{Store}
use pack_verse.Services.Filename.{chars}
use pack_verse.Services.Ingestion.{is_blank}
use pack_verse.Services.Retrieval.{
  ScoredChunk, score, prepend, scored, measure, measured, distance_of, hits_of, is_candidate,
  is_searchable, among, has_model, nearest, search, clamped, max_top_k, head_of,
}

module _ {Vector : Type 0} where
  measure-All :
      (P : DocumentChunk Vector → Type 0) (distance : Vector → Vector → ℕ) (query : Vector)
      (chunk : DocumentChunk Vector) (e : Option Vector) (rest : List (DocumentChunk Vector × ℕ))
      → P chunk
      → All (λ hit. P hit.0) rest
      → All (λ hit. P hit.0) (measure distance query chunk e rest)
  measure-All P distance query chunk none rest p h = h
  measure-All P distance query chunk (some v) rest p h = (p, h)

  measured-All :
      (P : DocumentChunk Vector → Type 0) (distance : Vector → Vector → ℕ) (query : Vector)
      (chunks : List (DocumentChunk Vector))
      → All P chunks
      → All (λ hit. P hit.0) (measured distance query chunks)
  measured-All P distance query [] h = tt
  measured-All P distance query (c ∷ cs) h =
      measure-All P distance query c c.embedding (measured distance query cs) h.0
        (measured-All P distance query cs h.1)

  measure-tail :
      (distance : Vector → Vector → ℕ) (query : Vector) (chunk : DocumentChunk Vector)
      (e : Option Vector) (rest : List (DocumentChunk Vector × ℕ)) (hit : DocumentChunk Vector × ℕ)
      → Memᴰ hit rest
      → Memᴰ hit (measure distance query chunk e rest)
  measure-tail distance query chunk none rest hit m = m
  measure-tail distance query chunk (some v) rest hit m = Memᴰ.tail m

  mem-measured :
      (distance : Vector → Vector → ℕ) (query : Vector) (chunks : List (DocumentChunk Vector))
      (chunk : DocumentChunk Vector) (v : Vector)
      → Memᴰ chunk chunks
      → chunk.embedding ≡ some v
      → Memᴰ (chunk, distance query v) (measured distance query chunks)
  mem-measured distance query [] chunk v m e = elim m [ ]
  mem-measured distance query (c ∷ cs) chunk v (Memᴰ.tail m) e =
      measure-tail distance query c c.embedding (measured distance query cs) _
        (mem-measured distance query cs chunk v m e)
  mem-measured distance query (c ∷ cs) chunk v (Memᴰ.head q) e =
      subst (λ x. Memᴰ (chunk, distance query v) (measured distance query (x ∷ cs))) q
        (subst
          (λ o.
            Memᴰ (chunk, distance query v)
              (measure distance query chunk o (measured distance query cs)))
          (sym e) (Memᴰ.head refl))

  -- If the first rows all have a distance, their results are those of the sorted rows.
  scored-take :
      (unit n : ℕ) (hits : List (DocumentChunk Vector × ℕ)) (bare : List (DocumentChunk Vector))
      (results : List ScoredChunk)
      → scored unit
          (take n (map (λ hit. (hit.0, some hit.1)) hits ++ map (λ chunk. (chunk, none)) bare))
        ≡ ok results
      → results ≡ map (λ hit. score unit hit.0 hit.1) (take n hits)
  scored-take unit zero hits bare results h = ground arith
  scored-take unit (suc n) [] [] results h = ground arith
  scored-take unit (suc n) [] (b ∷ bs) results h = absurd (ground arith)
  scored-take unit (suc n) (x ∷ xs) bare results h =
      let rest =
        scored unit
          (take n (map (λ hit. (hit.0, some hit.1)) xs ++ map (λ chunk. (chunk, none)) bare)) in
      elim (Result-cases rest) [
        | inl (rs, e) ↦
            let same : ok (score unit x.0 x.1 ∷ rs) ≡ ok results =
              ap (prepend (score unit x.0 x.1)) (sym e) ∙ h in
            let tail = scored-take unit n xs bare rs e in ground (arith, same, tail)
        | inr (x', e) ↦
            let same = ap (prepend (score unit x.0 x.1)) (sym e) ∙ h in
            absurd (ground (arith, same))
      ]

abbrev pub Searchable : Option Asset → Type 0
Searchable none = ⊥
Searchable (some asset) = (asset.status ≡ AssetStatus.available) × (asset.deleted_at ≡ none)

abbrev pub AskedFor : Option (List ℕ) → ℕ → Type 0
AskedFor none id = Unit
AskedFor (some ids) id = Memᴰ id ids

has_model_of : (m : Option String) (model : String) → m ≡ some model → has_model m model ≡ true
has_model_of none model h = absurd (ground arith)
has_model_of (some m) model h = ground (arith, string_eq.same_iff m model)

of_has_model : (m : Option String) (model : String) → has_model m model ≡ true → m ≡ some model
of_has_model none model h = absurd (ground arith)
of_has_model (some m) model h = ap (λ x. some x) ((string_eq.same_iff m model).0 h)

is_searchable_of : (a : Option Asset) → Searchable a → is_searchable a ≡ true
is_searchable_of none h = absurd h
is_searchable_of (some asset) (h, k) = rw (h, k) refl

none_of : (d : Option ℕ) → is_none d ≡ true → d ≡ none
none_of none h = refl
none_of (some t) h = absurd (ground arith)

of_is_searchable : (a : Option Asset) → is_searchable a ≡ true → Searchable a
of_is_searchable none h = absurd (ground arith)
of_is_searchable (some asset) h = (
  (asset_status_eq.same_iff asset.status AssetStatus.available).0 (ground arith),
  none_of asset.deleted_at (ground arith),
)

elem_of : (ids : List ℕ) (id : ℕ) → Memᴰ id ids → elem id ids ≡ true
elem_of [] id m = elim m [ ]
elem_of (x ∷ ids) id (Memᴰ.head e) = ground arith
elem_of (x ∷ ids) id (Memᴰ.tail m) = ground (arith, elem_of ids id m)

of_elem : (ids : List ℕ) (id : ℕ) → elem id ids ≡ true → Memᴰ id ids
of_elem [] id h = absurd (ground arith)
of_elem (x ∷ ids) id h = elim (Bool-cases (id == x)) [
  | inl e ↦ Memᴰ.head ((ℕ_eq.same_iff id x).0 e)
  | inr e ↦ Memᴰ.tail (of_elem ids id (ground arith))
]

among_of : (asked : Option (List ℕ)) (id : ℕ) → AskedFor asked id → among asked id ≡ true
among_of none id h = refl
among_of (some ids) id h = elem_of ids id h

of_among : (asked : Option (List ℕ)) (id : ℕ) → among asked id ≡ true → AskedFor asked id
of_among none id h = tt
of_among (some ids) id h = of_elem ids id h

module _ {O Vector : Type 0} (libraries : Libraries O) (gateway : Gateway O Vector)
    (is_space : Char → Bool) (unit : ℕ) (distance : Vector → Vector → ℕ) (new_id : ℕ → ℕ) where
  -- What may be found: a row of the table, embedded by the model, whose asset is there, AVAILABLE and
  -- not deleted, and among those asked for.
  abbrev pub MayBeFound : Store O Vector → String → Option (List ℕ) → DocumentChunk Vector → Type 0
  MayBeFound s model asset_ids chunk =
      Memᴰ chunk s.document_chunks
      × (chunk.embedding_model ≡ some model)
      × Searchable (Table.find (λ a. a.id) chunk.asset_id s.assets)
      × AskedFor asset_ids chunk.asset_id

  found_of_may :
      (s : Store O Vector) (model : String) (asset_ids : Option (List ℕ))
      (chunk : DocumentChunk Vector)
      → MayBeFound s model asset_ids chunk
      → is_candidate s.assets model asset_ids chunk ≡ true
  found_of_may s model asset_ids chunk (there, m, a, b) = ground (
    arith,
    has_model_of chunk.embedding_model model m,
    is_searchable_of (Table.find (λ a. a.id) chunk.asset_id s.assets) a,
    among_of asset_ids chunk.asset_id b,
  )

  may_of_found :
      (s : Store O Vector) (model : String) (asset_ids : Option (List ℕ))
      (chunk : DocumentChunk Vector)
      → Memᴰ chunk s.document_chunks
      → is_candidate s.assets model asset_ids chunk ≡ true
      → MayBeFound s model asset_ids chunk
  may_of_found s model asset_ids chunk there h = (
    there,
    of_has_model chunk.embedding_model model (ground arith),
    of_is_searchable (Table.find (λ a. a.id) chunk.asset_id s.assets) (ground arith),
    of_among asset_ids chunk.asset_id (ground arith),
  )

  -- The answer of the gateway to the query, as it is sent.
  abbrev pub Embeds :
      Store O Vector → String → String → Option String → EmbeddingResponse Vector → Type 0
  Embeds s query model provider response =
      (request_id : ℕ) × (o : O) × (embed libraries gateway
          (record {
            request_id = request_id;
            model = model;
            input = query ∷ [];
            provider = provider;
            timeout_seconds = none;
            metadata = end;
          })
          s.outside
        ≡ (ok response, o))

  -- The results are the first of a ranking, nearest first, of exactly the rows that may be found and
  -- have an embedding; there are at most 50. No search changes a row.
  abbrev pub Nearest :
      String
      → String
      → Option String
      → ℤ
      → Option (List ℕ)
      → Store O Vector
      → Result Exn (List ScoredChunk) × Store O Vector
      → Type 0
  Nearest text asked provider top_k asset_ids s (ok results, t) =
      (response : EmbeddingResponse Vector) × Embeds s text asked provider response
      × (query : Vector) × (head_of response.embeddings ≡ some query)
      × (ranked : List (DocumentChunk Vector × ℕ)) × AreAscending distance_of ranked
      × All (λ hit. MayBeFound s response.model asset_ids hit.0) ranked
      × ((chunk : DocumentChunk Vector) (v : Vector)
          → MayBeFound s response.model asset_ids chunk
          → chunk.embedding ≡ some v
          → Memᴰ (chunk, distance query v) ranked)
      × (results ≡ map (λ hit. score unit hit.0 hit.1) (take (clamped top_k) ranked))
      × (length results ≤ max_top_k)
      × (t.document_chunks ≡ s.document_chunks)
      × (t.assets ≡ s.assets)
  Nearest text asked provider top_k asset_ids s (err e, t) =
      (t.document_chunks ≡ s.document_chunks) × (t.assets ≡ s.assets)

  module _ (text asked : String) (provider : Option String) (top_k : ℤ)
      (asset_ids : Option (List ℕ)) where
    ranked-Nearest :
        (response : EmbeddingResponse Vector) (query : Vector) (s t : Store O Vector)
        (results : List ScoredChunk)
        → Embeds s text asked provider response
        → head_of response.embeddings ≡ some query
        → t.document_chunks ≡ s.document_chunks
        → t.assets ≡ s.assets
        → scored unit (
            take (clamped top_k) (
              hits_of distance query
                (keep (is_candidate s.assets response.model asset_ids) s.document_chunks)))
          ≡ ok results
        → Nearest text asked provider top_k asset_ids s (ok results, t)
    ranked-Nearest response query s t results embeds first chunks assets h =
        let model = response.model in
        let rows = keep (is_candidate s.assets model asset_ids) s.document_chunks in
        let found = measured distance query rows in
        let same = scored-take unit (clamped top_k) (sort_by distance_of found) _ results h in
        (
          response,
          embeds,
          query,
          first,
          sort_by distance_of found,
          sort_by-AreAscending distance_of found,
          All-sort_by distance_of (λ hit. MayBeFound s model asset_ids hit.0) found
              (measured-All (MayBeFound s model asset_ids) distance query rows (
                All-of_mem (MayBeFound s model asset_ids) rows (λ chunk m.
                  let (there, passes) =
                    mem-keep (is_candidate s.assets model asset_ids) chunk s.document_chunks m in
                  may_of_found s model asset_ids chunk there passes))),
          (λ chunk v may e. mem-sort_by distance_of _ found (
              mem-measured distance query rows chunk v
                (keep_of_mem (is_candidate s.assets model asset_ids) chunk s.document_chunks may.0
                  (found_of_may s model asset_ids chunk may))
                e)),
          same,
          rw same (
              omega (
                arith,
                length-map (λ hit. score unit hit.0 hit.1)
                    (take (clamped top_k) (sort_by distance_of found)),
                length-take (clamped top_k) (sort_by distance_of found),
              )),
          chunks,
          assets,
        )

    nearest-Nearest :
        (response : EmbeddingResponse Vector) (query : Option Vector) (s : Store O Vector) (w : O)
        (made : ℕ)
        → Embeds s text asked provider response
        → head_of response.embeddings ≡ query
        → Nearest text asked provider top_k asset_ids s (
            nearest libraries gateway is_space unit distance new_id response.model
              (clamped top_k)
              asset_ids
              query
              (record s { outside = w; ids_made = made }))
    unfolding nearest
    nearest-Nearest response none s w made embeds first = (refl, refl)
    nearest-Nearest response (some query) s w made embeds first =
        let rows = keep (is_candidate s.assets response.model asset_ids) s.document_chunks in
        let nearest_hits = take (clamped top_k) (hits_of distance query rows) in
        elim (Result-cases (scored unit nearest_hits)) [
          | inl (results, e) ↦ rw e (
              ranked-Nearest response query s (record s { outside = w; ids_made = made }) results
                embeds first refl refl e)
          | inr (x, e) ↦ rw e (refl, refl)
        ]

    responded :
        (s : Store O Vector) (w : O) (made : ℕ) (r : Result Exn (EmbeddingResponse Vector))
        → ((response : EmbeddingResponse Vector)
            → r ≡ ok response
            → Embeds s text asked provider response)
        → Nearest text asked provider top_k asset_ids s (
            continue r
              (λ response.
                nearest libraries gateway is_space unit distance new_id response.model
                  (clamped top_k)
                  asset_ids
                  (head_of response.embeddings))
              (record s { outside = w; ids_made = made }))
    responded s w made (err e) embeds = (refl, refl)
    responded s w made (ok response) embeds =
        nearest-Nearest response (head_of response.embeddings) s w made (embeds response refl) refl

  -- A search that returns gives the first rows, at most 50, of a ranking, nearest to the vector that
  -- the gateway gives of the query first, of exactly the rows with an embedding by the gateway's model
  -- whose asset is AVAILABLE, not deleted and asked for. No search, whether it returns or raises,
  -- changes a row.
  pub search-Nearest :
      (query embedding_model : String) (provider : Option String) (top_k : ℤ)
      (asset_ids : Option (List ℕ)) (s : Store O Vector)
      → Nearest query embedding_model provider top_k asset_ids s (
          search libraries gateway is_space unit distance new_id query embedding_model provider
            top_k asset_ids s)
  unfolding search
  search-Nearest query embedding_model provider top_k asset_ids s =
      let reply =
        embed libraries gateway
          (record {
            request_id = new_id s.ids_made;
            model = embedding_model;
            input = query ∷ [];
            provider = provider;
            timeout_seconds = none;
            metadata = end;
          })
          s.outside in
      elim (Bool-cases (is_blank is_space (chars query))) [
        | inl b ↦ rw b (refl, refl)
        | inr b ↦ rw b (
            responded query embedding_model provider top_k asset_ids s reply.1 (s.ids_made + 1)
              reply.0 (λ response e. (new_id s.ids_made, reply.1, ap (λ r. (r, reply.1)) e)))
      ]
