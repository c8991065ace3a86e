-- ===== src/Mcp/Sorting.antt =====
-- Sorted lists of texts, and the lists that the checks of internal/mcp/credentials.go accept.
use videocutlist.Prelude.{
  ◌≡◌, suc, refl, Bool, true, false, not, ◌&&◌, ◌||◌, Option, none, some, List, [], ◌∷◌, ◌++◌,
  if◌then◌else◌, any, all, length, arith, Bool-cases, inl, inr, ◌∙◌, ap, sym,
}
use videocutlist.Prelude.Text.{
  Text, text_eq, text_eq_comm, text_ltb, text_ltb_irrefl, text_ltb_trans, text_ltb-total,
}
use videocutlist.Mcp.Ids.{
  contains, valid_safe_identifier, valid_ids_from, valid_id_list, insert_text, sort_texts,
}
use videocutlist.Mcp.Scopes.{Permission, known_permissions}
use videocutlist.Mcp.Normalize.{collect_permissions, good_ids}

all-insert_text :
    (p : Text → Bool) (s : Text) (ts : List Text) → all p (insert_text s ts) ≡ (p s && all p ts)
unfolding insert_text
all-insert_text p s [] = refl
all-insert_text p s (t ∷ ts) = ground (arith, all-insert_text p s ts)

pub all-sort_texts : (p : Text → Bool) (ts : List Text) → all p (sort_texts ts) ≡ all p ts
unfolding sort_texts
all-sort_texts p [] = refl
all-sort_texts p (t ∷ ts) = ground (arith, all-insert_text p t (sort_texts ts), all-sort_texts p ts)

any-insert_text :
    (p : Text → Bool) (s : Text) (ts : List Text) → any p (insert_text s ts) ≡ (p s || any p ts)
unfolding insert_text
any-insert_text p s [] = refl
any-insert_text p s (t ∷ ts) = ground (arith, any-insert_text p s ts)

pub any-sort_texts : (p : Text → Bool) (ts : List Text) → any p (sort_texts ts) ≡ any p ts
unfolding sort_texts
any-sort_texts p [] = refl
any-sort_texts p (t ∷ ts) = ground (arith, any-insert_text p t (sort_texts ts), any-sort_texts p ts)

length-insert_text : (s : Text) (ts : List Text) → length (insert_text s ts) ≡ suc (length ts)
unfolding insert_text
length-insert_text s [] = refl
length-insert_text s (t ∷ ts) = ground (arith, length-insert_text s ts)

pub length-sort_texts : (ts : List Text) → length (sort_texts ts) ≡ length ts
unfolding sort_texts
length-sort_texts [] = refl
length-sort_texts (t ∷ ts) = length-insert_text t (sort_texts ts) ∙ ap suc (length-sort_texts ts)

-- In order: nothing later is before.
abbrev in_order : List Text → Bool
in_order [] = true
in_order (t ∷ ts) = all (λ u. not (text_ltb u t)) ts && in_order ts

pub ltb_asym : (s t : Text) → text_ltb s t ≡ true → text_ltb t s ≡ false
ltb_asym s t h = elim (Bool-cases (text_ltb t s)) [
  | inl k ↦ absurd (cc (text_ltb_trans s t s h k, text_ltb_irrefl s))
  | inr k ↦ k
]

pub not_before : (s t u : Text) → text_ltb t s ≡ false → text_ltb u t ≡ false → text_ltb u s ≡ false
not_before s t u h k = elim (Bool-cases (text_ltb u s)) [
  | inr not_so ↦ not_so
  | inl before ↦ elim (Bool-cases (text_ltb s t)) [
    | inl less ↦ absurd (cc (text_ltb_trans u s t before less, k))
    | inr more ↦ rw (text_ltb-total s t more h) k
  ]
]

none_before :
    (s t : Text) (ts : List Text)
    → text_ltb t s ≡ false
    → all (λ u. not (text_ltb u t)) ts ≡ true
    → all (λ u. not (text_ltb u s)) ts ≡ true
none_before s t [] h k = refl
none_before s t (u ∷ us) h k = ground (arith, none_before s t us h, not_before s t u h)

insert-in_order :
    (s : Text) (ts : List Text) → in_order ts ≡ true → in_order (insert_text s ts) ≡ true
unfolding insert_text
insert-in_order s [] h = refl
insert-in_order s (t ∷ ts) h = ground (
  arith,
  insert-in_order s ts,
  all-insert_text (λ (u : Text). not (text_ltb u t)) s ts,
  ltb_asym t s,
  none_before s t ts,
)

sort-in_order : (ts : List Text) → in_order (sort_texts ts) ≡ true
unfolding sort_texts
sort-in_order [] = refl
sort-in_order (t ∷ ts) = insert-in_order t (sort_texts ts) (sort-in_order ts)

insert_first :
    (t : Text) (ts : List Text)
    → all (λ u. not (text_ltb u t)) ts ≡ true
    → insert_text t ts ≡ t ∷ ts
unfolding insert_text
insert_first t [] h = refl
insert_first t (u ∷ us) h = ground (arith, h)

in_order-sort : (ts : List Text) → in_order ts ≡ true → sort_texts ts ≡ ts
unfolding sort_texts
in_order-sort [] h = refl
in_order-sort (t ∷ ts) h =
    let (first, rest) = and_split (all (λ u. not (text_ltb u t)) ts) (in_order ts) h in
    rw (in_order-sort ts rest) (insert_first t ts first)
  where
    and_split : (a b : Bool) → (a && b) ≡ true → (a ≡ true) × (b ≡ true)
    and_split a b h = ground arith

pub sort_texts-sort_texts : (ts : List Text) → sort_texts (sort_texts ts) ≡ sort_texts ts
sort_texts-sort_texts ts = in_order-sort (sort_texts ts) (sort-in_order ts)

abbrev pub distinct : List Text → Bool
distinct [] = true
distinct (t ∷ ts) = not (contains t ts) && distinct ts

insert-distinct :
    (s : Text) (ts : List Text) → distinct (insert_text s ts) ≡ (not (contains s ts) && distinct ts)
unfolding insert_text
insert-distinct s [] = refl
insert-distinct s (t ∷ ts) =
    ground (arith, insert-distinct s ts, any-insert_text (text_eq t) s ts, text_eq_comm s t)

pub sort-distinct : (ts : List Text) → distinct (sort_texts ts) ≡ distinct ts
unfolding sort_texts
sort-distinct [] = refl
sort-distinct (t ∷ ts) =
    ground
      (arith, insert-distinct t (sort_texts ts), any-sort_texts (text_eq t) ts, sort-distinct ts)

-- None of the texts has been seen.
abbrev pub unseen : List Text → List Text → Bool
unseen seen = all (λ t. not (contains t seen))

unseen-cons :
    (t : Text) (seen ts : List Text)
    → unseen (t ∷ seen) ts ≡ (unseen seen ts && not (contains t ts))
unseen-cons t seen [] = refl
unseen-cons t seen (u ∷ us) = ground (arith, unseen-cons t seen us, text_eq_comm t u)

pub contains-append :
    (s t : Text) (ts : List Text) → contains s (ts ++ t ∷ []) ≡ (contains s ts || text_eq s t)
contains-append s t [] = ground arith
contains-append s t (u ∷ us) = ground (arith, contains-append s t us)

unseen-append :
    (t : Text) (seen ts : List Text)
    → unseen (seen ++ t ∷ []) ts ≡ (unseen seen ts && not (contains t ts))
unseen-append t seen [] = refl
unseen-append t seen (u ∷ us) =
    ground (arith, unseen-append t seen us, contains-append u t seen, text_eq_comm t u)

pub unseen_first : (ts : List Text) → unseen [] ts ≡ true
unseen_first [] = refl
unseen_first (t ∷ ts) = unseen_first ts

pub valid_ids_from-distinct :
    (seen ts : List Text)
    → valid_ids_from seen ts ≡ (all valid_safe_identifier ts && unseen seen ts && distinct ts)
unfolding valid_ids_from
valid_ids_from-distinct seen [] = refl
valid_ids_from-distinct seen (t ∷ ts) =
    ground (arith, valid_ids_from-distinct (t ∷ seen) ts, unseen-cons t seen ts)

pub valid_id_list-sort_texts : (ts : List Text) → valid_id_list (sort_texts ts) ≡ valid_id_list ts
unfolding valid_id_list
valid_id_list-sort_texts ts =
    rw
      (
        valid_ids_from-distinct [] (sort_texts ts),
        valid_ids_from-distinct [] ts,
        all-sort_texts valid_safe_identifier ts,
        sort-distinct ts,
        unseen_first ts,
        unseen_first (sort_texts ts),
      )
      refl

pub good_ids-sort_texts : (ts : List Text) → good_ids (sort_texts ts) ≡ good_ids ts
good_ids-sort_texts ts = rw (length-sort_texts ts, valid_id_list-sort_texts ts) refl

unfoldable pub collected : List Permission → List Permission → Bool
collected result ps = all (λ p. contains p known_permissions) ps && unseen result ps && distinct ps

append-cons : (xs ys : List Text) (x : Text) → (xs ++ x ∷ []) ++ ys ≡ xs ++ x ∷ ys
append-cons [] ys x = refl
append-cons (y ∷ xs) ys x = ap (λ z. y ∷ z) (append-cons xs ys x)

append_nil : (xs : List Text) → xs ++ [] ≡ xs
append_nil [] = refl
append_nil (x ∷ xs) = ap (λ z. x ∷ z) (append_nil xs)

pub collect-collected :
    (result ps : List Permission)
    → collect_permissions result ps ≡ (if collected result ps then some (result ++ ps) else none)
unfolding collect_permissions collected
collect-collected result [] = ap some (sym (append_nil result))
collect-collected result (p ∷ ps) =
    step (contains p known_permissions) (contains p result) (contains p ps)
      (all (λ q. contains q known_permissions) ps) (unseen (result ++ p ∷ []) ps) (unseen result ps)
      (distinct ps) _ _
      (collect-collected (result ++ p ∷ []) ps ∙ rw (append-cons result ps p) refl)
      (unseen-append p result ps)
  where
    step :
        (k c d a u v n : Bool) (r : Option (List Permission)) (xs : List Permission)
        → r ≡ (if a && u && n then some xs else none)
        → u ≡ (v && not d)
        → (if not k || c then none else r)
          ≡ (if (k && a) && (not c && v) && (not d && n) then some xs else none)
    step k c d a u v n r xs h q = rw (h, q) (ground arith)
