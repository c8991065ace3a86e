-- ===== src/Preview/Eviction.antt =====
-- What the eviction of the preview cache (internal/preview/cache/cache.go) keeps and removes.
use videocutlist.Prelude.{
  ℕ, ◌≡◌, ◌≤◌, ◌<◌, ◌+◌, ◌-◌, ◌∙◌, refl, sym, Bool, true, false, Option, none, some, List, [], ◌∷◌,
  leb, all, All, count, arith, Bool-cases, subst, inl, inr,
}
use videocutlist.Prelude.Text.{Text}
use videocutlist.Preview.Cache.{
  Entry, CacheError, cache_disk_limit, is_leased, total_size, insert_by_age, oldest_first,
  evict_loop, evict_locked,
}

insert-total_size :
    (f : Entry) (fs : List Entry) → total_size (insert_by_age f fs) ≡ f.size + total_size fs
unfolding insert_by_age
insert-total_size f [] = refl
insert-total_size f (g ∷ gs) = ground (arith, insert-total_size f gs)

oldest_first-total_size : (fs : List Entry) → total_size (oldest_first fs) ≡ total_size fs
unfolding oldest_first
oldest_first-total_size [] = refl
oldest_first-total_size (f ∷ fs) =
    ground (arith, insert-total_size f (oldest_first fs), oldest_first-total_size fs)

insert-count :
    (p : Entry → Bool) (f : Entry) (fs : List Entry)
    → count p (insert_by_age f fs) ≡ count p (f ∷ fs)
unfolding insert_by_age
insert-count p f [] = refl
insert-count p f (g ∷ gs) = ground (arith, insert-count p f gs)

oldest_first-count : (p : Entry → Bool) (fs : List Entry) → count p (oldest_first fs) ≡ count p fs
unfolding oldest_first
oldest_first-count p [] = refl
oldest_first-count p (f ∷ fs) =
    ground (arith, insert-count p f (oldest_first fs), oldest_first-count p fs)

-- `f` was modified no later than any of the files.
abbrev NoLater : Entry → List Entry → Type 0
NoLater f = All (λ g. f.modified ≤ g.modified)

abbrev ByAge : List Entry → Type 0
ByAge [] = Unit
ByAge (f ∷ fs) = NoLater f fs × ByAge fs

NoLater-trans :
    (f g : Entry) (fs : List Entry) → f.modified ≤ g.modified → NoLater g fs → NoLater f fs
NoLater-trans f g [] h k = tt
NoLater-trans f g (x ∷ fs) h k = (omega (arith, k.0), NoLater-trans f g fs h k.1)

NoLater-insert :
    (g f : Entry) (fs : List Entry)
    → g.modified ≤ f.modified
    → NoLater g fs
    → NoLater g (insert_by_age f fs)
unfolding insert_by_age
NoLater-insert g f [] h k = (h, tt)
NoLater-insert g f (x ∷ fs) h k = elim (Bool-cases (leb f.modified x.modified)) [
  | inl older ↦ rw older (h, k)
  | inr newer ↦ rw newer (k.0, NoLater-insert g f fs h k.1)
]

insert-ByAge : (f : Entry) (fs : List Entry) → ByAge fs → ByAge (insert_by_age f fs)
unfolding insert_by_age
insert-ByAge f [] h = (tt, tt)
insert-ByAge f (g ∷ fs) h = elim (Bool-cases (leb f.modified g.modified)) [
  | inl older ↦
      let le : f.modified ≤ g.modified = ground arith in
      rw older ((le, NoLater-trans f g fs le h.0), h)
  | inr newer ↦ rw newer (NoLater-insert g f fs (ground arith) h.0, insert-ByAge f fs h.1)
]

oldest_first-ByAge : (fs : List Entry) → ByAge (oldest_first fs)
unfolding oldest_first
oldest_first-ByAge [] = tt
oldest_first-ByAge (f ∷ fs) = insert-ByAge f (oldest_first fs) (oldest_first-ByAge fs)

-- The size of the last of the files.
abbrev pub last_size : List Entry → ℕ
last_size [] = 0
last_size (f ∷ []) = f.size
last_size (f ∷ g ∷ fs) = last_size (g ∷ fs)

-- What an eviction that reports `e` makes of the files: it keeps some and removes the others, in this
-- order.
pub record Evicted (max : ℕ) (leases : List Text) (files : List Entry) (e : Option CacheError)
    (kept : List Entry) : Type 0 where
  pub gone : List Entry
  pub all_there : (p : Entry → Bool) → count p files ≡ count p gone + count p kept
  pub leased_stay : All (λ g. is_leased leases g ≡ false) gone
  pub oldest_go :
      All (λ g. All (λ k. is_leased leases k ≡ false → g.modified ≤ k.modified) kept) gone
  pub no_more_than_needed :
      (f : Entry) (fs : List Entry) → gone ≡ f ∷ fs → max < total_size kept + last_size gone
  pub within_limit : e ≡ none → total_size kept ≤ max
  pub only_leased :
      e ≡ some cache_disk_limit → (all (is_leased leases) kept ≡ true) × (max < total_size kept)

module _ (max : ℕ) (leases : List Text) (fails : Text → Bool) where
  -- `extra` is the size of the leased files passed over before.
  evict_loop-within :
      (total extra : ℕ) (fs : List Entry)
      → total ≡ extra + total_size fs
      → (evict_loop max leases fails total fs).0 ≡ none
      → extra + total_size (evict_loop max leases fails total fs).1 ≤ max
  unfolding evict_loop
  evict_loop-within total extra [] t h = ground arith
  evict_loop-within total extra (f ∷ fs) t h = ground (
    arith,
    evict_loop-within total (extra + f.size) fs,
    evict_loop-within (total - f.size) extra fs,
  )

  evict_loop-only_leased :
      (total extra : ℕ) (fs : List Entry)
      → total ≡ extra + total_size fs
      → (evict_loop max leases fails total fs).0 ≡ some cache_disk_limit
      → (all (is_leased leases) (evict_loop max leases fails total fs).1 ≡ true)
        × (max < extra + total_size (evict_loop max leases fails total fs).1)
  unfolding evict_loop
  evict_loop-only_leased total extra [] t h = ground arith
  evict_loop-only_leased total extra (f ∷ fs) t h = ground (
    arith,
    evict_loop-only_leased total (extra + f.size) fs,
    evict_loop-only_leased (total - f.size) extra fs,
  )

  -- The loop has removed `gone` and kept the rest.
  record Removed (extra : ℕ) (fs kept : List Entry) : Type 0 where
    gone : List Entry
    all_there : (p : Entry → Bool) → count p fs ≡ count p gone + count p kept
    sizes : total_size fs ≡ total_size gone + total_size kept
    leased_stay : All (λ g. is_leased leases g ≡ false) gone
    oldest_go : All (λ g. All (λ k. is_leased leases k ≡ false → g.modified ≤ k.modified) kept) gone
    stays_late : (f : Entry) → NoLater f fs → NoLater f kept
    needed :
        (f : Entry) (rest : List Entry)
        → gone ≡ f ∷ rest
        → max < extra + total_size kept + last_size gone

  none-Removed : (extra : ℕ) (fs : List Entry) → Removed extra fs fs
  none-Removed extra fs = record {
    gone = [];
    all_there = λ p. omega arith;
    sizes = omega arith;
    leased_stay = tt;
    oldest_go = tt;
    stays_late = λ f h. h;
    needed = λ f rest e. absurd (cc e);
  }

  with_leased :
      (f : Entry) (kept gone : List Entry)
      → is_leased leases f ≡ true
      → All (λ g. All (λ k. is_leased leases k ≡ false → g.modified ≤ k.modified) kept) gone
      → All (λ g. All (λ k. is_leased leases k ≡ false → g.modified ≤ k.modified) (f ∷ kept)) gone
  with_leased f kept [] l h = tt
  with_leased f kept (g ∷ gone) l h =
      ((λ u. absurd (cc (u, l)), h.0), with_leased f kept gone l h.1)

  unleased_too :
      (f : Entry) (kept : List Entry)
      → NoLater f kept
      → All (λ k. is_leased leases k ≡ false → f.modified ≤ k.modified) kept
  unleased_too f [] h = tt
  unleased_too f (k ∷ kept) h = (λ _. h.0, unleased_too f kept h.1)

  keep-Removed :
      (extra : ℕ) (f : Entry) (fs kept : List Entry)
      → is_leased leases f ≡ true
      → Removed (extra + f.size) fs kept
      → Removed extra (f ∷ fs) (f ∷ kept)
  keep-Removed extra f fs kept l r = record {
    gone = r.gone;
    all_there = λ p. ground (arith, r.all_there p);
    sizes = omega (arith, r.sizes);
    leased_stay = r.leased_stay;
    oldest_go = with_leased f kept r.gone l r.oldest_go;
    stays_late = λ g h. (h.0, r.stays_late g h.1);
    needed = λ g rest e. omega (arith, r.needed g rest e);
  }

  last-Removed :
      (extra : ℕ) (f : Entry) (fs kept gone : List Entry)
      → max < extra + f.size + total_size fs
      → total_size fs ≡ total_size gone + total_size kept
      → ((g : Entry) (rest : List Entry)
          → gone ≡ g ∷ rest
          → max < extra + total_size kept + last_size gone)
      → max < extra + total_size kept + last_size (f ∷ gone)
  last-Removed extra f fs kept [] over s n = omega (arith, s)
  last-Removed extra f fs kept (g ∷ gone) over s n = n g gone refl

  drop-Removed :
      (extra : ℕ) (f : Entry) (fs kept : List Entry)
      → is_leased leases f ≡ false
      → NoLater f fs
      → max < extra + f.size + total_size fs
      → Removed extra fs kept
      → Removed extra (f ∷ fs) kept
  drop-Removed extra f fs kept l old over r = record {
    gone = f ∷ r.gone;
    all_there = λ p. ground (arith, r.all_there p);
    sizes = omega (arith, r.sizes);
    leased_stay = (l, r.leased_stay);
    oldest_go = (unleased_too f kept (r.stays_late f old), r.oldest_go);
    stays_late = λ g h. r.stays_late g h.1;
    needed = λ g rest e. last-Removed extra f fs kept r.gone over r.sizes r.needed;
  }

  evict_loop-Removed :
      (total extra : ℕ) (fs : List Entry)
      → total ≡ extra + total_size fs
      → ByAge fs
      → Removed extra fs (evict_loop max leases fails total fs).1
  unfolding evict_loop
  evict_loop-Removed total extra [] t old = none-Removed extra []
  evict_loop-Removed total extra (f ∷ fs) t old = elim (Bool-cases (leb total max)) [
    | inl fits ↦ rw fits (none-Removed extra (f ∷ fs))
    | inr over ↦ elim (Bool-cases (is_leased leases f)) [
      | inl l ↦
          let kept : (evict_loop max leases fails total (f ∷ fs)).1
              ≡ f ∷ (evict_loop max leases fails total fs).1 =
            rw (over, l) refl in
          subst (λ k. Removed extra (f ∷ fs) k) (sym kept)
            (keep-Removed extra f fs _ l
              (evict_loop-Removed total (extra + f.size) fs (omega (arith, t)) old.1))
      | inr l ↦ elim (Bool-cases (fails f.path)) [
        | inl bad ↦
            let kept : (evict_loop max leases fails total (f ∷ fs)).1 ≡ f ∷ fs =
              rw (over, l, bad) refl in
            subst (λ k. Removed extra (f ∷ fs) k) (sym kept) (none-Removed extra (f ∷ fs))
        | inr good ↦
            let kept : (evict_loop max leases fails total (f ∷ fs)).1
                ≡ (evict_loop max leases fails (total - f.size) fs).1 =
              rw (over, l, good) refl in
            subst (λ k. Removed extra (f ∷ fs) k) (sym kept)
              (drop-Removed extra f fs _ l old.0 (ground (arith, t, over))
                (evict_loop-Removed (total - f.size) extra fs (omega (arith, t)) old.1))
      ]
    ]
  ]

  -- An eviction keeps some of the files and removes the others, none of them leased: each of those was
  -- modified no later than any unleased file that is kept, and the last removal was needed to come
  -- within the limit. If it reports no error, the files that are kept are within the limit; if it
  -- reports the disk limit, only leased files are left and they alone exceed it.
  pub evict-Evicted :
      (files : List Entry)
      → let (e, kept) = evict_locked max leases fails files in Evicted max leases files e kept
  unfolding evict_locked
  evict-Evicted files =
      let n : total_size files ≡ 0 + total_size (oldest_first files) =
        omega (arith, oldest_first-total_size files) in
      let r =
        evict_loop-Removed (total_size files) 0 (oldest_first files) n (oldest_first-ByAge files) in
      record {
        gone = r.gone;
        all_there = λ p. sym (oldest_first-count p files) ∙ r.all_there p;
        leased_stay = r.leased_stay;
        oldest_go = r.oldest_go;
        no_more_than_needed = λ f fs e. omega (arith, r.needed f fs e);
        within_limit =
            λ e. omega (arith, evict_loop-within (total_size files) 0 (oldest_first files) n e);
        only_leased = λ e.
            let (a, b) = evict_loop-only_leased (total_size files) 0 (oldest_first files) n e in
            (a, omega (arith, b));
      }
