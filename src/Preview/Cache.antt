-- ===== src/Preview/Cache.antt =====
-- internal/preview/cache/cache.go: the entries of the preview cache, their leases, and what a commit
-- publishes and evicts. Both locks are held from the rename on, so publication is one step. What the
-- file system does is an argument.
use videocutlist.Prelude.{
  ℕ, ◌+◌, ◌-◌, Bool, not, Option, none, some, List, [], ◌∷◌, ◌++◌, if◌then◌else◌, ltb, leb, any,
  select, ◌&&◌, ◌||◌, ◌==◌,
}
use videocutlist.Prelude.Text.{Text, text_eq}

-- `cacheFile`: a published file, with its size, its time of modification and what `os.SameFile` compares.
pub record Entry : Type 0 where
  pub path : Text
  pub size : ℕ
  pub modified : ℕ
  pub inode : ℕ

pub data CacheError : Type 0 where
  cache_disk_limit cache_bad_limit cache_io cache_changed : CacheError

-- `leases` has a path as often as `open` counts it.
pub record Cache : Type 0 where
  pub files : List Entry
  pub max : ℕ
  pub leases : List Text

unfoldable pub set_max_bytes : ℕ → Cache → Option CacheError × Cache
set_max_bytes n c = if ltb n 1 then (some cache_bad_limit, c) else (none, record c { max = n })

abbrev pub is_leased : List Text → Entry → Bool
is_leased leases f = any (text_eq f.path) leases

abbrev remove_one : Text → List Text → List Text
remove_one path [] = []
remove_one path (p ∷ ps) = if text_eq p path then ps else p ∷ remove_one path ps

unfoldable pub lease : Text → Cache → Cache
lease path c = record c { leases = path ∷ c.leases }

unfoldable pub release : Text → Cache → Cache
release path c = record c { leases = remove_one path c.leases }

abbrev pub total_size : List Entry → ℕ
total_size [] = 0
total_size (f ∷ fs) = f.size + total_size fs

unfoldable pub insert_by_age : Entry → List Entry → List Entry
insert_by_age f [] = f ∷ []
insert_by_age f (g ∷ gs) = if leb f.modified g.modified then f ∷ g ∷ gs else g ∷ insert_by_age f gs

unfoldable pub oldest_first : List Entry → List Entry
unfolding insert_by_age
oldest_first [] = []
oldest_first (f ∷ fs) = insert_by_age f (oldest_first fs)

-- The loop of `evictLocked` over the files, oldest first: its error, and the files that are left.
unfoldable pub evict_loop :
    ℕ → List Text → (Text → Bool) → ℕ → List Entry → Option CacheError × List Entry
evict_loop max leases fails total [] = (if leb total max then none else some cache_disk_limit, [])
evict_loop max leases fails total (f ∷ fs) =
    let (e, kept) = evict_loop max leases fails total fs in
    let smaller = evict_loop max leases fails (total - f.size) fs in
    if leb total max
    then (none, f ∷ fs)
    else if is_leased leases f
    then (e, f ∷ kept)
    else if fails f.path
    then (some cache_io, f ∷ fs)
    else smaller

unfoldable pub evict_locked :
    ℕ → List Text → (Text → Bool) → List Entry → Option CacheError × List Entry
unfolding evict_loop oldest_first
evict_locked max leases fails files =
    evict_loop max leases fails (total_size files) (oldest_first files)

-- What the file system and the validator do to one commit.
pub record Commit : Type 0 where
  -- the error of a stage before the rename, or of the rename itself
  pub early : Option CacheError
  -- whether the `Lstat` after the rename finds a regular file, and the file that stands there then
  pub is_readable : Bool
  pub landed : Entry
  -- the removals of an eviction that fail, and whether `RemoveFileIfOwned` cannot look or remove
  pub fails : Text → Bool
  pub withdraw_fails : Bool

-- The file at the path is the inode of `f`.
abbrev pub is_owned : Entry → Entry → Bool
is_owned f g = text_eq g.path f.path && g.inode == f.inode

-- `RemoveFileIfOwned` of the file of `f`: best effort, and only that inode.
unfoldable pub withdraw : Bool → Entry → List Entry → List Entry
withdraw withdraw_fails f files =
    if withdraw_fails then files else select (λ g. not (is_owned f g)) files

abbrev pub withdraw_on_error :
    Bool → Entry → Option CacheError × List Entry → Option CacheError × List Entry
withdraw_on_error stuck f (none, kept) = (none, kept)
withdraw_on_error stuck f (some e, kept) = (some e, withdraw stuck f kept)

-- The files once the partial file has been renamed.
abbrev pub renamed : Commit → Entry → Cache → List Entry
renamed env f c = c.files ++ record env.landed { path = f.path } ∷ []

-- `Commit`. A final file that is already there stays, and the commit succeeds.
unfoldable pub commit_partial : Commit → Entry → Cache → Option CacheError × List Entry
unfolding evict_locked withdraw
commit_partial env f c = elim env.early [
  | some e ↦ (some e, c.files)
  | none ↦
      if any (λ g. text_eq g.path f.path) c.files
      then (none, c.files)
      else if not env.is_readable || not (env.landed.inode == f.inode)
      then (some cache_changed, withdraw env.withdraw_fails f (renamed env f c))
      else if ltb c.max env.landed.size
      then (some cache_disk_limit, withdraw env.withdraw_fails f (renamed env f c))
      else withdraw_on_error env.withdraw_fails f
          (evict_locked c.max c.leases env.fails (renamed env f c))
]
