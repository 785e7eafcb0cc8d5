-- ===== src/Promotion/Plan/Laws.antt =====
-- What a promotion to the current state writes, and what is current in the corpus once it is written.
use multi_agent_brain.Common.{
  ◌≡◌, refl, ap, ◌∙◌, subst, inl, inr, Bool, true, false, List, [], ◌∷◌, ◌++◌, map, filter,
  Bool-cases, if◌then◌else◌, string_eq, ◌==◌, ==_refl, not, sym, arith, false≢true, Elem, here,
  there, ◌⊎◌,
}
use multi_agent_brain.Common.Members.{filter-Elem, map-Elem, Elem-append_left}
use multi_agent_brain.Common.Results.{ok, ok-injective, err≢ok, Result-cases}
use multi_agent_brain.Notes.{CanonicalNoteRecord, StagingDraftRecord, NoteFrontmatter}
use multi_agent_brain.Canonical.{
  Texts, prepare_current_state_snapshot, build_current_state_snapshot,
}
use multi_agent_brain.Canonical.Laws.{prepared_snapshot-Built}
use multi_agent_brain.Promotion.Plan.{
  PromoteNoteRequest, Fresh, superseded_write, promotion_payload, takes_place_of,
  find_superseded_records, snapshot_writes,
}

abbrev pub is_current : CanonicalNoteRecord → Bool
is_current note = note.frontmatter.current_state

-- The notes of a corpus after one of them is written, where a note is the file at its path, and after
-- a list of them is written.
abbrev pub stored : List CanonicalNoteRecord → CanonicalNoteRecord → List CanonicalNoteRecord
stored notes w = filter (λ n. not (n.note_path == w.note_path)) notes ++ (w ∷ [])

abbrev pub stored_all :
    List CanonicalNoteRecord → List CanonicalNoteRecord → List CanonicalNoteRecord
stored_all notes [] = notes
stored_all notes (w ∷ ws) = stored_all (stored notes w) ws

abbrev Survives : CanonicalNoteRecord → List CanonicalNoteRecord → Type 0
Survives n ws = (w : CanonicalNoteRecord) → Elem w ws → (n.note_path == w.note_path) ≡ false

-- A note that is there afterwards was written, or it was there before and no write took its path.
stored-Elem :
    (notes : List CanonicalNoteRecord) (w : CanonicalNoteRecord) {n : CanonicalNoteRecord}
    → Elem n (stored notes w)
    → (n ≡ w) ⊎ (Elem n notes × ((n.note_path == w.note_path) ≡ false))
stored-Elem [] w (here e) = inl e
stored-Elem [] w (there m) = elim m [ ]
stored-Elem (k ∷ notes) w {n} m = elim (Bool-cases (k.note_path == w.note_path)) [
  | inl taken ↦ later (stored-Elem notes w (rw taken at m))
  | inr free ↦ first free (stored-Elem notes w) (rw free at m)
]
  where
    later :
        (n ≡ w) ⊎ (Elem n notes × ((n.note_path == w.note_path) ≡ false))
        → (n ≡ w) ⊎ (Elem n (k ∷ notes) × ((n.note_path == w.note_path) ≡ false))
    later (inl e) = inl e
    later (inr (m, free)) = inr (there m, free)

    first :
        (k.note_path == w.note_path) ≡ false
        → (Elem n (stored notes w)
            → (n ≡ w) ⊎ (Elem n notes × ((n.note_path == w.note_path) ≡ false)))
        → Elem n (k ∷ stored notes w)
        → (n ≡ w) ⊎ (Elem n (k ∷ notes) × ((n.note_path == w.note_path) ≡ false))
    first free rest (here e) =
        inr (here e, subst (λ x. (x.note_path == w.note_path) ≡ false) (sym e) free)
    first free rest (there m) = later (rest m)

stored_all-Elem :
    (notes ws : List CanonicalNoteRecord) {n : CanonicalNoteRecord}
    → Elem n (stored_all notes ws)
    → Elem n ws ⊎ (Elem n notes × Survives n ws)
stored_all-Elem notes [] m = inr (m, λ w h. elim h [ ])
stored_all-Elem notes (v ∷ ws) {n} m = step (stored_all-Elem (stored notes v) ws m)
  where
    all : (n.note_path == v.note_path) ≡ false → Survives n ws → Survives n (v ∷ ws)
    all free later w (here e) = subst (λ x. (n.note_path == x.note_path) ≡ false) (sym e) free
    all free later w (there h) = later w h

    step :
        Elem n ws ⊎ (Elem n (stored notes v) × Survives n ws)
        → Elem n (v ∷ ws) ⊎ (Elem n notes × Survives n (v ∷ ws))
    step (inl h) = inl (there h)
    step (inr (h, later)) = elim (stored-Elem notes v h) [
      | inl e ↦ inl (here e)
      | inr (old, free) ↦ inr (old, all free later)
    ]

module _ (texts : Texts) (fresh : Fresh) where
  none_current :
      (records snapshots : List CanonicalNoteRecord)
      → filter is_current (map (superseded_write fresh) records ++ snapshots)
        ≡ filter is_current snapshots
  unfolding superseded_write
  none_current [] snapshots = refl
  none_current (r ∷ records) snapshots = none_current records snapshots

  built-Plain :
      (note : CanonicalNoteRecord) → is_current (build_current_state_snapshot texts note) ≡ false
  unfolding build_current_state_snapshot
  built-Plain note = refl

  snapshot-Plain :
      (note snapshot : CanonicalNoteRecord)
      → prepare_current_state_snapshot texts note ≡ ok snapshot
      → is_current snapshot ≡ false
  snapshot-Plain note snapshot e =
      subst (λ n. is_current n ≡ false) (prepared_snapshot-Built texts note snapshot e)
        (built-Plain note)

  snapshot_not_current :
      (note : CanonicalNoteRecord) (snapshots : List CanonicalNoteRecord)
      → snapshot_writes texts true note ≡ ok snapshots
      → filter is_current snapshots ≡ []
  unfolding snapshot_writes
  snapshot_not_current note snapshots h =
      elim (Result-cases (prepare_current_state_snapshot texts note)) [
        | inr (refused, e) ↦ absurd (err≢ok (rw e at h))
        | inl (snapshot, e) ↦
            let listed : snapshot ∷ [] ≡ snapshots = ok-injective (rw e at h) in
            subst (λ l. filter is_current l ≡ []) listed (rw (snapshot-Plain note snapshot e) refl)
      ]

  -- A note is left over from before only where it is no rival.
  rival_overwritten :
      (source : NoteFrontmatter) (notes rest : List CanonicalNoteRecord) (n : CanonicalNoteRecord)
      → Elem n notes
      → Survives n
          (map (superseded_write fresh) (find_superseded_records texts source notes) ++ rest)
      → takes_place_of texts source n ≡ false
  unfolding find_superseded_records superseded_write
  rival_overwritten source notes rest n old survives =
      elim (Bool-cases (takes_place_of texts source n)) [
        | inr other ↦ other
        | inl rival ↦
            let found = filter-Elem (takes_place_of texts source) notes old rival in
            let written =
              Elem-append_left
                (map-Elem (superseded_write fresh) (filter (takes_place_of texts source) notes)
                  found)
                rest in
            absurd
              (false≢true (sym (survives (superseded_write fresh n) written) ∙ ==_refl n.note_path))
      ]

  -- Among what is written only the promoted note can be current.
  written_rival :
      (records snapshots : List CanonicalNoteRecord) (note n : CanonicalNoteRecord)
      → filter is_current snapshots ≡ []
      → Elem n (map (superseded_write fresh) records ++ (note ∷ snapshots))
      → is_current n ≡ true
      → n ≡ note
  unfolding superseded_write
  written_rival [] snapshots note n plain (here e) current = e
  written_rival [] snapshots note n plain (there m) current =
      elim (subst (λ l. Elem n l) plain (filter-Elem is_current snapshots m current)) [ ]
  written_rival (r ∷ records) snapshots note n plain (here e) current =
      absurd (false≢true (ap is_current (sym e) ∙ current))
  written_rival (r ∷ records) snapshots note n plain (there m) current =
      written_rival records snapshots note n plain m current

  rival-is_current :
      (source : NoteFrontmatter) (n : CanonicalNoteRecord)
      → takes_place_of texts source n ≡ true
      → is_current n ≡ true
  unfolding takes_place_of
  rival-is_current source n h = ground (arith, h)

  -- Where a note is promoted to the current state and its snapshot is prepared, it is the only current
  -- note among what is written. Once all of it is written, each to its path, no other current note of
  -- the corpus has the type and the project of the draft and its title or scope.
  pub promotion_leaves_one_current :
      (request : PromoteNoteRequest) (draft : StagingDraftRecord) (note : CanonicalNoteRecord)
      (notes snapshots : List CanonicalNoteRecord)
      → note.frontmatter.current_state ≡ true
      → snapshot_writes texts true note ≡ ok snapshots
      → let payload =
          promotion_payload fresh request draft note
            (find_superseded_records texts draft.frontmatter notes)
            snapshots in
        (filter is_current payload.canonical_writes ≡ note ∷ [])
        × ((n : CanonicalNoteRecord)
            → Elem n (stored_all notes payload.canonical_writes)
            → takes_place_of texts draft.frontmatter n ≡ true
            → n ≡ note)
  unfolding promotion_payload
  promotion_leaves_one_current request draft note notes snapshots current prepared =
      let rivals = find_superseded_records texts draft.frontmatter notes in
      let writes = map (superseded_write fresh) rivals ++ (note ∷ snapshots) in
      let plain = snapshot_not_current note snapshots prepared in
      (
        none_current rivals (note ∷ snapshots)
            ∙ ap
                (λ b. if b then note ∷ filter is_current snapshots else filter is_current snapshots)
                current
            ∙ ap (λ l. note ∷ l) plain,
        λ n m rival. elim (stored_all-Elem notes writes m) [
          | inl written ↦
              written_rival rivals snapshots note n plain written
                (rival-is_current draft.frontmatter n rival)
          | inr (old, survives) ↦ absurd (
              false≢true (
                sym (rival_overwritten draft.frontmatter notes (note ∷ snapshots) n old survives)
                ∙ rival))
        ],
      )
