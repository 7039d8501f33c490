-- ===== src/Roa/Update/Laws.antt =====
-- What an update makes of the table of authorizations.
use google_cloud_storage.Base.{
  ℕ, Bytes, List, [], ◌∷◌, ◌++◌, append_assoc, append-nil, All, ◌≡◌, ◌≢◌, refl, sym, ap, ◌∙◌, inl,
  inr, ◌⊎◌, Bool, true, false, arith,
}
use google_cloud_storage.Base.Result.{Error, Result, ok, err}
use google_cloud_storage.Base.Run.{Run, returns, panic}
use mathlib.Core.Path.{ap₂}
use google_cloud_storage.Roa.{
  ℤ, InputRoa, StoredRoa, TimedRoa, rows_of, divided, put_all, already_done,
}
use google_cloud_storage.Roa.Laws.{concat, IsChunk, divided_all, divided_size}
use google_cloud_storage.Roa.Merge.{merge}
use google_cloud_storage.Roa.Merge.Laws.{history, Unique, joined, merge-history}
use google_cloud_storage.Roa.Update.{
  Warehouse, IsLawful, Outcome, refused, failed, updated, read_stage, wait_stage, merge_stage,
  created_stage, rows_stage, current_stage, current_wait_stage, current_run_stage, schema_stage,
  downloaded_stage, done_stage, pull_to_db,
}

returns_inj : {A : Type 0} (a b : A) → ◌≡◌ {A = Run A} (returns a) (returns b) → a ≡ b
returns_inj a b h = cc

ok_inj : {A : Type 0} (a b : A) → ◌≡◌ {A = Result A} (ok a) (ok b) → a ≡ b
ok_inj a b h = cc

module _ (W : Warehouse) (L : IsLawful W) where
  -- Every insertion of a chunk succeeds.
  pub record Inserts : Type 0 where
    pub put_ok : (rows : List TimedRoa) (s : W.State) → (W.put rows s).1 ≡ ok tt

  arr-put_all : (cs : List (List TimedRoa)) (s : W.State) → W.arr (put_all W.put cs s) ≡ W.arr s
  unfolding put_all
  arr-put_all [] s = refl
  arr-put_all ([] ∷ cs) s = refl
  arr-put_all ((x ∷ xs) ∷ cs) s = arr-put_all cs (W.put (x ∷ xs) s).0 ∙ L.arr-put (x ∷ xs) s

  buf-put_all :
      Inserts
      → (cs : List (List TimedRoa)) (s : W.State) → All IsChunk cs
      → W.buf (put_all W.put cs s) ≡ W.buf s ++ concat cs
  unfolding put_all concat
  buf-put_all I [] s h = sym (append-nil (W.buf s))
  buf-put_all I ([] ∷ cs) s ((a, b), hs) = absurd (omega arith)
  buf-put_all I ((x ∷ xs) ∷ cs) s (h, hs) =
      buf-put_all I cs (W.put (x ∷ xs) s).0 hs
      ∙ ap (λ l. l ++ concat cs)
          (L.buf-put (x ∷ xs) s _ (ap (λ r. ((W.put (x ∷ xs) s).0, r)) (I.put_ok (x ∷ xs) s)))
      ∙ append_assoc (W.buf s) (x ∷ xs) (concat cs)

  -- How an update ends, by the rows that it had: the table is as it was and no success is reported,
  -- or the statement has run on all of the rows.
  abbrev Ends : List TimedRoa → W.State → W.State → Outcome → Type 0
  Ends rows s s' o =
      ((W.arr s' ≡ W.arr s) × (o ≢ updated))
      ⊎ ((o ≢ refused) × (merge rows (W.arr s) ≡ ok (W.arr s')))

  -- What an update did to the table: the statement on the rows of the download.
  abbrev pub Merged : (Bytes → ℤ) → ℕ → List InputRoa → W.State → W.State → Type 0
  Merged atoi now roas s s' =
      (rows : List TimedRoa) × (rows_of atoi now roas ≡ returns rows)
      × (merge rows (W.arr s) ≡ ok (W.arr s'))

  module _ (atoi : Bytes → ℤ) where
    failed_stays :
        (s s' : W.State) (e : Error) (o : Outcome)
        → ◌≡◌ {A = Run (W.State × Outcome)} (returns (s, failed e)) (returns (s', o))
        → (W.arr s' ≡ W.arr s) × (o ≢ updated)
    failed_stays s s' e o h = (
      ap (λ p. W.arr p.0) (sym (returns_inj _ _ h)),
      λ k. let f : failed e ≡ o = ap (λ p. p.1) (returns_inj _ _ h) in absurd (cc),
    )

    read_ends :
        (u s' : W.State) (r : Result (Unit {0})) (o : Outcome)
        → read_stage W atoi u r ≡ (s', o)
        → (u ≡ s') × (o ≢ refused)
    unfolding read_stage
    read_ends u s' (ok tt) o h =
        (ap (λ p. p.0) h, λ k. let f : updated ≡ o = ap (λ p. p.1) h in absurd (cc))
    read_ends u s' (err e) o h =
        (ap (λ p. p.0) h, λ k. let f : failed e ≡ o = ap (λ p. p.1) h in absurd (cc))

    -- The end of the job, from the tables that it was started on.
    wait-Ends :
        (rows : List TimedRoa) (s f t s' : W.State) (o : Outcome)
        → W.run_merge f ≡ (t, ok tt)
        → W.buf f ≡ rows
        → W.arr f ≡ W.arr s
        → (x : W.State × Result (Result (Unit {0}))) → W.wait_merge t ≡ x
        → wait_stage W atoi x ≡ returns (s', o)
        → Ends rows s s' o
    unfolding wait_stage
    wait-Ends rows s f t s' o run b a (u, err e) wait h = absurd (cc)
    wait-Ends rows s f t s' o run b a (u, ok (err e)) wait h =
        let (same_arr, ne) = failed_stays u s' e o h in
        inl (same_arr ∙ L.merge_err f t u e run wait ∙ a, ne)
    wait-Ends rows s f t s' o run b a (u, ok (ok tt)) wait h =
        let (last, ne) = read_ends u s' (W.read_merge u) o (returns_inj _ _ h) in
        inr (ne, sym (ap₂ merge b a) ∙ L.merge_ok f t u run wait ∙ ap (λ x. ok (W.arr x)) last)

    merge-Ends :
        (rows : List TimedRoa) (s f s' : W.State) (o : Outcome)
        → W.buf f ≡ rows
        → W.arr f ≡ W.arr s
        → (x : W.State × Result (Unit {0})) → W.run_merge f ≡ x
        → merge_stage W atoi x ≡ returns (s', o)
        → Ends rows s s' o
    unfolding merge_stage
    merge-Ends rows s f s' o b a (t, err e) run h = absurd (cc)
    merge-Ends rows s f s' o b a (t, ok tt) run h =
        wait-Ends rows s f t s' o run b a (W.wait_merge t) refl h

    created-Ends :
        Inserts
        → (rows : List TimedRoa) (r : W.State × Result (Unit {0})) (s s' : W.State) (o : Outcome)
        → W.arr r.0 ≡ W.arr s
        → ((t : W.State) → r ≡ (t, ok tt) → W.buf t ≡ [])
        → created_stage W atoi rows r ≡ returns (s', o)
        → Ends rows s s' o
    unfolding created_stage
    created-Ends I rows (t, err e) s s' o same empty h =
        let (stays, ne) = failed_stays t s' e o h in inl (stays ∙ same, ne)
    created-Ends I rows (t, ok tt) s s' o same empty h =
        let filled = put_all W.put (divided rows) t in
        merge-Ends rows s filled s' o
          (buf-put_all I (divided rows) t (divided_size rows)
            ∙ ap (λ l. l ++ concat (divided rows)) (empty t refl)
            ∙ divided_all rows)
          (arr-put_all (divided rows) t ∙ same) (W.run_merge filled) refl h

    -- How an update of a download ends.
    abbrev Updates : ℕ → List InputRoa → W.State → W.State → Outcome → Type 0
    Updates now roas s s' o =
        ((W.arr s' ≡ W.arr s) × (o ≢ updated)) ⊎ ((o ≢ refused) × Merged atoi now roas s s')

    rows_ends :
        Inserts
        → (now : ℕ) (roas : List InputRoa) (x : Run (List TimedRoa)) (s s' : W.State) (o : Outcome)
        → rows_of atoi now roas ≡ x
        → rows_stage W atoi x s ≡ returns (s', o)
        → Updates now roas s s' o
    unfolding rows_stage
    rows_ends I now roas panic s s' o e h = absurd (cc)
    rows_ends I now roas (returns rows) s s' o e h =
        elim (created-Ends I rows (W.create_buf (W.delete_buf s).0) s s' o
          (L.arr-create (W.delete_buf s).0 ∙ L.arr-delete s)
          (λ t c. L.buf-create (W.delete_buf s).0 t c) h) [
            | inl k ↦ inl k
            | inr (ne, m) ↦ inr (ne, (rows, e, m))
          ]

    current_ends :
        Inserts
        → (now : ℕ) (roas : List InputRoa) (r : Result (Unit {0})) (s s' : W.State) (o : Outcome)
        → current_stage W atoi now roas r s ≡ returns (s', o)
        → Updates now roas s s' o
    unfolding current_stage
    current_ends I now roas (err e) s s' o h = inl (failed_stays s s' e o h)
    current_ends I now roas (ok tt) s s' o h =
        rows_ends I now roas (rows_of atoi now roas) s s' o refl h

    current_wait_ends :
        Inserts
        → (now : ℕ) (roas : List InputRoa) (r : Result (Result (Unit {0}))) (s s' : W.State)
          (o : Outcome)
        → current_wait_stage W atoi now roas r s ≡ returns (s', o)
        → Updates now roas s s' o
    unfolding current_wait_stage
    current_wait_ends I now roas (err e) s s' o h = absurd (cc)
    current_wait_ends I now roas (ok (err e)) s s' o h = inl (failed_stays s s' e o h)
    current_wait_ends I now roas (ok (ok tt)) s s' o h =
        current_ends I now roas (W.read_current s) s s' o h

    current_run_ends :
        Inserts
        → (now : ℕ) (roas : List InputRoa) (r : Result (Unit {0})) (s s' : W.State) (o : Outcome)
        → current_run_stage W atoi now roas r s ≡ returns (s', o)
        → Updates now roas s s' o
    unfolding current_run_stage
    current_run_ends I now roas (err e) s s' o h = inl (failed_stays s s' e o h)
    current_run_ends I now roas (ok tt) s s' o h =
        current_wait_ends I now roas (W.wait_current s) s s' o h

    -- An update leaves the table as it was, or puts a whole download into it.
    abbrev pub Whole : ℕ → Result (List InputRoa) → W.State → W.State → Outcome → Type 0
    Whole now download s s' o =
        ((W.arr s' ≡ W.arr s) × (o ≢ updated))
        ⊎ ((o ≢ refused)
            × ((roas : List InputRoa) × (download ≡ ok roas) × Merged atoi now roas s s'))

    downloaded_ends :
        Inserts
        → (now : ℕ) (schema : Result (Unit {0})) (r : Result (List InputRoa)) (s s' : W.State)
          (o : Outcome)
        → downloaded_stage W atoi now schema r s ≡ returns (s', o)
        → Whole now r s s' o
    unfolding downloaded_stage schema_stage
    downloaded_ends I now schema (err e) s s' o h = inl (failed_stays s s' e o h)
    downloaded_ends I now (err e) (ok roas) s s' o h = inl (failed_stays s s' e o h)
    downloaded_ends I now (ok tt) (ok roas) s s' o h =
        elim (current_run_ends I now roas (W.run_current s) s s' o h) [
          | inl k ↦ inl k
          | inr (ne, m) ↦ inr (ne, (roas, refl, m))
        ]

    done_ends :
        Inserts
        → (x : Run Bool) (now : ℕ) (download : Result (List InputRoa)) (schema : Result (Unit {0}))
          (s s' : W.State) (o : Outcome)
        → done_stage W atoi x now download schema s ≡ returns (s', o)
        → Whole now download s s' o
    unfolding done_stage
    done_ends I panic now download schema s s' o h = absurd (cc)
    done_ends I (returns true) now download schema s s' o h = inl (
      ap (λ p. W.arr p.0) (sym (returns_inj _ _ h)),
      λ k. let f : refused ≡ o = ap (λ p. p.1) (returns_inj _ _ h) in absurd (cc),
    )
    done_ends I (returns false) now download schema s s' o h =
        downloaded_ends I now schema download s s' o h

    -- With a database client that keeps the rules of its interface, where every insertion succeeds:
    -- an update that ends without a panic has left the table as it was, and does not report
    -- success; or it was not refused, and has merged the rows of all authorizations that were
    -- downloaded into the table, and no others, whether it then reports success or a failure.
    pub pull_to_db-Whole :
        Inserts
        → (now : ℕ) (download : Result (List InputRoa)) (schema : Result (Unit {0}))
          (s s' : W.State) (o : Outcome)
        → pull_to_db W atoi now download schema s ≡ returns (s', o)
        → Whole now download s s' o
    unfolding pull_to_db
    pull_to_db-Whole I now download schema s s' o h =
        done_ends I (already_done (W.last_modified s) now) now download schema s s' o h

    -- Where every insertion succeeds, an update that reports success has merged the rows of the
    -- authorizations that were downloaded into the table, and no others.
    pub pull_to_db_merges :
        Inserts
        → (now : ℕ) (download : Result (List InputRoa)) (schema : Result (Unit {0}))
          (s s' : W.State)
        → pull_to_db W atoi now download schema s ≡ returns (s', updated)
        → (roas : List InputRoa) × (download ≡ ok roas) × Merged atoi now roas s s'
    pull_to_db_merges I now download schema s s' h =
        elim (pull_to_db-Whole I now download schema s s' updated h) [
          | inl (same_arr, ne) ↦ absurd (ne refl)
          | inr (ne, m) ↦ m
        ]

    -- With a database client that keeps the rules of its interface, where every insertion succeeds
    -- and the download has no authorization twice: an update that reports success puts the times
    -- of each downloaded row in front of those that the table had for its authorization, and
    -- leaves the times of all others as they were.
    pub pull_to_db-history :
        Inserts
        → (now : ℕ) (roas : List InputRoa) (rows : List TimedRoa) (schema : Result (Unit {0}))
          (s s' : W.State)
        → rows_of atoi now roas ≡ returns rows
        → Unique rows
        → pull_to_db W atoi now (ok roas) schema s ≡ returns (s', updated)
        → (k : StoredRoa) → history k (W.arr s') ≡ joined (history k rows) (history k (W.arr s))
    pull_to_db-history I now roas rows schema s s' read u h k =
        let (roas', same, (rows', read', m)) = pull_to_db_merges I now (ok roas) schema s s' h in
        let one : roas ≡ roas' = ok_inj roas roas' same in
        let two : rows ≡ rows' =
          returns_inj rows rows' (sym read ∙ ap (rows_of atoi now) one ∙ read') in
        let (out, e, spec) = merge-history rows (W.arr s) u in
        let last : out ≡ W.arr s' =
          ok_inj out (W.arr s') (sym e ∙ ap (λ l. merge l (W.arr s)) two ∙ m) in
        ap (history k) (sym last) ∙ spec k
