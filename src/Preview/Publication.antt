-- ===== src/Preview/Publication.antt =====
-- What a commit to the preview cache (internal/preview/cache/cache.go) publishes and withdraws.
use videocutlist.Prelude.{
  ◌≡◌, ◌≤◌, refl, sym, ◌∙◌, Bool, true, false, not, ◌||◌, Option, none, some, List, [], ◌∷◌, ◌++◌,
  ◌==◌, ltb, any, arith, Bool-cases, Option-cases, inl, inr,
}
use videocutlist.Prelude.Text.{text_eq}
use videocutlist.Preview.Cache.{
  Entry, CacheError, cache_changed, cache_disk_limit, Cache, Commit, is_owned, total_size, withdraw,
  withdraw_on_error, renamed, evict_locked, commit_partial,
}
use videocutlist.Preview.Eviction.{evict-Evicted}

withdraw-owned : (f : Entry) (fs : List Entry) → any (is_owned f) (withdraw false f fs) ≡ false
unfolding withdraw
withdraw-owned f [] = refl
withdraw-owned f (g ∷ fs) = ground (arith, withdraw-owned f fs)

withdraw-foreign :
    (b : Bool) (f : Entry) (fs : List Entry) → any (is_owned f) fs ≡ false → withdraw b f fs ≡ fs
unfolding withdraw
withdraw-foreign true f fs h = refl
withdraw-foreign false f [] h = refl
withdraw-foreign false f (g ∷ fs) h = ground (arith, h, withdraw-foreign false f fs)

fresh-owned :
    (f : Entry) (fs : List Entry)
    → any (λ g. text_eq g.path f.path) fs ≡ false
    → any (is_owned f) fs ≡ false
fresh-owned f [] h = refl
fresh-owned f (g ∷ fs) h = ground (arith, h, fresh-owned f fs)

renamed-foreign :
    (f g : Entry) (fs : List Entry)
    → any (is_owned f) fs ≡ false
    → (g.inode == f.inode) ≡ false
    → any (is_owned f) (fs ++ record g { path = f.path } ∷ []) ≡ false
renamed-foreign f g [] h n = ground (arith, n)
renamed-foreign f g (x ∷ fs) h n = ground (arith, h, renamed-foreign f g fs)

-- What a commit of `f` has done, with the answer `e` and the files `kept` after it.
pub record Committed (env : Commit) (f : Entry) (c : Cache) (e : Option CacheError)
    (kept : List Entry) : Type 0 where
  pub within_limit : e ≡ none → total_size kept ≤ c.max
  pub nothing_left :
      (x : CacheError) → e ≡ some x → env.withdraw_fails ≡ false → any (is_owned f) kept ≡ false
  pub early_changes_nothing :
      (x : CacheError) → env.early ≡ some x → (e ≡ some x) × (kept ≡ c.files)
  pub substitute_stays :
      env.early ≡ none
      → (env.landed.inode == f.inode) ≡ false
      → (e ≡ some cache_changed) × (kept ≡ renamed env f c)

withdraw-nothing_left :
    (env : Commit) (f : Entry) (fs : List Entry)
    → env.withdraw_fails ≡ false
    → any (is_owned f) (withdraw env.withdraw_fails f fs) ≡ false
withdraw-nothing_left env f fs h = rw h (withdraw-owned f fs)

-- The last stage, after the eviction has answered `e`.
withdraw_on_error-Committed :
    (env : Commit) (f : Entry) (c : Cache) (e : Option CacheError) (kept : List Entry)
    → env.early ≡ none
    → (env.landed.inode == f.inode) ≡ true
    → (e ≡ none → total_size kept ≤ c.max)
    → let (answer, files) = withdraw_on_error env.withdraw_fails f (e, kept) in
      Committed env f c answer files
withdraw_on_error-Committed env f c none kept go own fit = record {
  within_limit = fit;
  nothing_left = λ x q. absurd (cc q);
  early_changes_nothing = λ x q. absurd (cc (q, go));
  substitute_stays = λ _ q. absurd (cc (q, own));
}
withdraw_on_error-Committed env f c (some e) kept go own fit = record {
  within_limit = λ q. absurd (cc q);
  nothing_left = λ x q w. withdraw-nothing_left env f kept w;
  early_changes_nothing = λ x q. absurd (cc (q, go));
  substitute_stays = λ _ q. absurd (cc (q, own));
}

abbrev is_substituted : Commit → Entry → Bool
is_substituted env f = not env.is_readable || not (env.landed.inode == f.inode)

-- A commit of a preview that is not in the cache yet. If it succeeds, all files together are within the
-- limit. If it fails, its own file is not left at its path unless `RemoveFileIfOwned` could not look or
-- remove. A failure up to the rename leaves the files as they were, and another file that has taken the
-- place of the renamed one is an error, and it stays.
pub commit-Committed :
    (env : Commit) (f : Entry) (c : Cache)
    → any (λ g. text_eq g.path f.path) c.files ≡ false
    → let (e, kept) = commit_partial env f c in Committed env f c e kept
unfolding commit_partial
commit-Committed env f c fresh = elim (Option-cases env.early) [
  | inr (e, stop) ↦
      let whole : commit_partial env f c ≡ (some e, c.files) = rw stop refl in
      rw whole (record {
        within_limit = λ q. absurd (cc q);
        nothing_left = λ x q w. fresh-owned f c.files fresh;
        early_changes_nothing = λ x q. (sym stop ∙ q, refl);
        substitute_stays = λ q _. absurd (cc (q, stop));
      })
  | inl go ↦ elim (Bool-cases (is_substituted env f)) [
    | inl bad ↦
        let whole : commit_partial env f c
            ≡ (some cache_changed, withdraw env.withdraw_fails f (renamed env f c)) =
          rw (go, fresh, bad) refl in
        rw whole (
          withdrawn cache_changed go λ n. (
            refl,
            withdraw-foreign env.withdraw_fails f (renamed env f c)
                (renamed-foreign f env.landed c.files (fresh-owned f c.files fresh) n),
          ))
    | inr good ↦
        let own : (env.landed.inode == f.inode) ≡ true = ground (arith, good) in
        elim (Bool-cases (ltb c.max env.landed.size)) [
          | inl big ↦
              let whole : commit_partial env f c
                  ≡ (some cache_disk_limit, withdraw env.withdraw_fails f (renamed env f c)) =
                rw (go, fresh, good, big) refl in
              rw whole (withdrawn cache_disk_limit go λ n. absurd (cc (n, own)))
          | inr fits ↦
              let v = evict-Evicted c.max c.leases env.fails (renamed env f c) in
              let whole : commit_partial env f c
                  ≡ withdraw_on_error env.withdraw_fails f
                      (evict_locked c.max c.leases env.fails (renamed env f c)) =
                rw (go, fresh, good, fits) refl in
              rw whole (withdraw_on_error-Committed env f c _ _ go own v.within_limit)
        ]
  ]
]
  where
    withdrawn :
        (e : CacheError)
        → env.early ≡ none
        → ((env.landed.inode == f.inode) ≡ false
            → (◌≡◌ {A = Option CacheError} (some e) (some cache_changed))
              × (withdraw env.withdraw_fails f (renamed env f c) ≡ renamed env f c))
        → Committed env f c (some e) (withdraw env.withdraw_fails f (renamed env f c))
    withdrawn e go stays = record {
      within_limit = λ q. absurd (cc q);
      nothing_left = λ x q w. withdraw-nothing_left env f (renamed env f c) w;
      early_changes_nothing = λ x q. absurd (cc (q, go));
      substitute_stays = λ _ n. stays n;
    }
