-- ===== src/Tests/Store.antt =====
-- A Redis server that answers, as a list of messages for each stream, and the theorems on it.
use aion_core.Prelude.{
  ℕ, zero, suc, ◌+◌, ◌<◌, ◌≤◌, String, Bool-cases, inl, inr, if◌then◌else◌, List, [], ◌∷◌, ◌++◌,
  length, length-append, length-drop, drop, set, length-set, Dict, Option, none, some, Result, ok,
  err, ◌≡◌, ◌≢◌, refl, sym, ap, subst, ◌∙◌, str_eq, eq_iff, arith,
}
use aion_core.Prelude.Decimal.{itoa, value, value-itoa}
use aion_core.Redis.{Item, XStream, Redis}
use aion_core.Kanban.Queue.{Entry, StreamLaws, IsUp}

-- The messages ever added to each stream; `none` is one that was deleted. Ids count from 1.
abbrev pub Log : Type 0
Log = List (Option (Dict Item))

abbrev pub Streams : Type 0
Streams = String → Log

abbrev entries : ℕ → Log → List Entry
entries n [] = []
entries n (none ∷ l) = entries (suc n) l
entries n (some v ∷ l) = (itoa (suc n), v) ∷ entries (suc n) l

abbrev behind : Streams → String → String → List Entry
behind s key id = entries (value 0 id) (drop (value 0 id) (s key))

abbrev change : String → (Log → Log) → Streams → Streams
change key f s other = if str_eq key other then f (s other) else s other

abbrev put : Dict Item → Log → Log
put v l = l ++ (some v ∷ [])

abbrev cross_out : ℕ → Log → Log
cross_out zero l = l
cross_out (suc i) l = set l i none

abbrev answer : String → List Entry → Option (Result String (List XStream))
answer key [] = none
answer key ((i, v) ∷ rest) =
    some (ok (record { stream = key; messages = record { id = i; values = some v } ∷ [] } ∷ []))

abbrev read_from : List String → Streams → Option (Result String (List XStream))
read_from (key ∷ id ∷ []) s = answer key (behind s key id)
read_from l s = none

abbrev drop_ids : String → List String → Streams → Streams
drop_ids key [] s = s
drop_ids key (id ∷ ids) s = drop_ids key ids (change key (cross_out (value 0 id)) s)

abbrev pub memory : Redis Streams
memory = record {
  xadd = λ key max v s. (change key (put v) s, ok (itoa (suc (length (s key)))));
  xread = λ keys count block s. read_from keys s;
  xdel = λ key ids s. (drop_ids key ids s, ok (length ids));
  hset = λ key v s. (s, ok 0);
  hget_all = λ key s. ok [];
  del = λ keys s. (s, ok 0);
  flush_all = λ s. ((λ key. []), ok "OK");
}

drop-append : (r : ℕ) (l : Log) (v : Dict Item) → r ≤ length l → drop r (put v l) ≡ put v (drop r l)
drop-append zero l v h = refl
drop-append (suc r) [] v h = elim h [ ]
drop-append (suc r) (x ∷ l) v h = drop-append r l v (omega (arith, h))

entries-append :
    (n : ℕ) (l : Log) (v : Dict Item)
    → entries n (put v l) ≡ entries n l ++ ((itoa (suc (n + length l)), v) ∷ [])
entries-append n [] v = ap (λ m. (itoa (suc m), v) ∷ []) (omega arith)
entries-append n (none ∷ l) v =
    let e : suc n + length l ≡ n + suc (length l) = omega arith in
    entries-append (suc n) l v ∙ ap (λ m. entries (suc n) l ++ ((itoa (suc m), v) ∷ [])) e
entries-append n (some w ∷ l) v =
    let e : suc n + length l ≡ n + suc (length l) = omega arith in
    ap (λ t. (itoa (suc n), w) ∷ t)
      (entries-append (suc n) l v ∙ ap (λ m. entries (suc n) l ++ ((itoa (suc m), v) ∷ [])) e)

-- Where the first entry stands.
record First (n : ℕ) (l : Log) (i : String) (rest : List Entry) : Type 0 where
  place : ℕ
  inside : place < length l
  named : i ≡ itoa (suc (n + place))
  others : rest ≡ entries (suc (n + place)) (drop (suc place) l)

cons_parts : (e f : Entry) (l m : List Entry) → e ∷ l ≡ f ∷ m → (e.0 ≡ f.0) × (l ≡ m)
cons_parts e f l m h = ground (arith, h)

entries-First :
    (n : ℕ) (l : Log) (i : String) (v : Dict Item) (rest : List Entry)
    → entries n l ≡ (i, v) ∷ rest
    → First n l i rest
entries-First n [] i v rest h = ground (arith, h)
entries-First n (none ∷ l) i v rest h =
    let f = entries-First (suc n) l i v rest h in
    let e : suc n + f.place ≡ n + suc f.place = omega arith in
    record {
      place = suc f.place;
      inside = omega (arith, f.inside);
      named = f.named ∙ ap (λ m. itoa (suc m)) e;
      others = f.others ∙ ap (λ m. entries (suc m) (drop (suc f.place) l)) e;
    }
entries-First n (some w ∷ l) i v rest h =
    let (p, q) = cons_parts (itoa (suc n), w) (i, v) (entries (suc n) l) rest h in
    let e : n ≡ n + 0 = omega arith in
    record {
      place = 0;
      inside = omega arith;
      named = sym p ∙ ap (λ m. itoa (suc m)) e;
      others = sym q ∙ ap (λ m. entries (suc m) l) e;
    }

drop-nil : (n : ℕ) → drop {A = Option (Dict Item)} n [] ≡ []
drop-nil zero = refl
drop-nil (suc n) = refl

drop-drop : (a b : ℕ) (l : Log) → drop a (drop b l) ≡ drop (b + a) l
drop-drop a zero l = let e : a ≡ 0 + a = omega arith in ap (λ n. drop n l) e
drop-drop a (suc b) [] = drop-nil a ∙ sym (drop-nil (suc b + a))
drop-drop a (suc b) (x ∷ l) =
    let e : suc (b + a) ≡ suc b + a = omega arith in drop-drop a b l ∙ ap (λ n. drop n (x ∷ l)) e

drop-set : (n i : ℕ) (l : Log) → i < n → drop n (set l i none) ≡ drop n l
drop-set zero i l h = absurd (omega (arith, h))
drop-set (suc n) i [] h = refl
drop-set (suc n) zero (x ∷ l) h = refl
drop-set (suc n) (suc i) (x ∷ l) h = drop-set n i l (omega (arith, h))

drop-cross_out : (n r : ℕ) (l : Log) → r ≤ n → drop n (cross_out r l) ≡ drop n l
drop-cross_out n zero l h = refl
drop-cross_out n (suc i) l h = drop-set n i l (omega (arith, h))

length-cross_out : (r : ℕ) (l : Log) → length (cross_out r l) ≡ length l
length-cross_out zero l = refl
length-cross_out (suc i) l = length-set l i none

change-same : (key : String) (f : Log → Log) (s : Streams) → change key f s key ≡ f (s key)
change-same key f s = ground (arith, eq_iff key key)

change-other :
    (key other : String) (f : Log → Log) (s : Streams) → other ≢ key → change other f s key ≡ s key
change-other key other f s h = ground (arith, h, eq_iff other key)

abbrev Seen : Streams → String → String → Type 0
Seen s key id = value 0 id ≤ length (s key)

-- The entry after a known id, its own id, and what is behind that.
record Step (s : Streams) (key id i : String) (rest : List Entry) : Type 0 where
  seen : Seen s key i
  later : value 0 id ≤ value 0 i
  goes_on : behind s key i ≡ rest

behind-Step :
    (s : Streams) (key id i : String) (v : Dict Item) (rest : List Entry)
    → Seen s key id
    → behind s key id ≡ (i, v) ∷ rest
    → Step s key id i rest
behind-Step s key id i v rest known h =
    let r = value 0 id in
    let f = entries-First r (drop r (s key)) i v rest h in
    let n : value 0 i ≡ suc (r + f.place) = ap (value 0) f.named ∙ value-itoa (suc (r + f.place)) in
    let left = length-drop r (s key) in
    let sum : suc (r + f.place) ≡ r + suc f.place = omega arith in
    record {
      seen = omega (arith, n, f.inside, left, known);
      later = omega (arith, n);
      goes_on =
          ap (λ m. entries m (drop m (s key))) n
          ∙ ap (λ m. entries (suc (r + f.place)) (drop m (s key))) sum
          ∙ ap (entries (suc (r + f.place))) (sym (drop-drop (suc f.place) r (s key)))
          ∙ sym f.others;
    }

behind-put :
    (s : Streams) (key id : String) (v : Dict Item)
    → Seen s key id
    → entries (value 0 id) (drop (value 0 id) (put v (s key)))
      ≡ behind s key id ++ ((itoa (suc (length (s key))), v) ∷ [])
behind-put s key id v known =
    let r = value 0 id in
    let e : r + length (drop r (s key)) ≡ length (s key) =
      omega (arith, length-drop r (s key), known) in
    ap (entries r) (drop-append r (s key) v known)
    ∙ entries-append r (drop r (s key)) v
    ∙ ap (λ m. behind s key id ++ ((itoa (suc m), v) ∷ [])) e

abbrev new_id : String → Result String String
new_id n = ok n

ok_inj : (a b : String) → new_id a ≡ new_id b → a ≡ b
ok_inj a b h = ground (arith, h)

answer-none : (key : String) (l : List Entry) → answer key l ≡ none → l ≡ []
answer-none key [] h = refl
answer-none key (e ∷ l) h = ground (arith, h)

answer-some :
    (key : String) (l : List Entry) (m : List XStream)
    → answer key l ≡ some (ok m)
    → (i : String) × (v : Dict Item) × (rest : List Entry) × (l ≡ (i, v) ∷ rest)
      × (m ≡ record { stream = key; messages = record { id = i; values = some v } ∷ [] } ∷ [])
answer-some key [] m h = ground (arith, h)
answer-some key ((i, v) ∷ rest) m h = (i, v, rest, refl, ground (arith, h))

put-here :
    (s : Streams) (key id new : String) (v : Dict Item)
    → new_id (itoa (suc (length (s key)))) ≡ new_id new
    → Seen s key id
    → behind (change key (put v) s) key id ≡ behind s key id ++ ((new, v) ∷ [])
put-here s key id new v made known =
    ap (λ l. entries (value 0 id) (drop (value 0 id) l)) (change-same key (put v) s)
    ∙ behind-put s key id v known
    ∙ ap (λ n. behind s key id ++ ((n, v) ∷ [])) (ok_inj _ _ made)

put-Seen :
    (s : Streams) (key other id : String) (v : Dict Item)
    → Seen s key id
    → Seen (change other (put v) s) key id
put-Seen s key other id v known = elim (Bool-cases (str_eq other key)) [
  | inl e ↦ rw e (omega (arith, known, length-append (s key) (some v ∷ [])))
  | inr e ↦ rw e known
]

cross-behind :
    (s : Streams) (key id i : String) (v : Dict Item) (rest : List Entry)
    → Seen s key id
    → behind s key id ≡ (i, v) ∷ rest
    → Seen (change key (cross_out (value 0 id)) s) key i
      × (behind (change key (cross_out (value 0 id)) s) key i ≡ rest)
cross-behind s key id i v rest known h =
    let step = behind-Step s key id i v rest known h in
    let here = change-same key (cross_out (value 0 id)) s in
    (
      subst (λ l. value 0 i ≤ length l) (sym here)
          (omega (arith, step.seen, length-cross_out (value 0 id) (s key))),
      ap (λ l. entries (value 0 i) (drop (value 0 i) l)) here
          ∙ ap (entries (value 0 i)) (drop-cross_out (value 0 i) (value 0 id) (s key) step.later)
          ∙ step.goes_on,
    )

pub memory_laws : StreamLaws memory
memory_laws = record {
  after = behind;
  Known = Seen;
  known_zero = λ s key. omega arith;
  known_next = λ s key id i v rest known h.
      let step = behind-Step s key id i v rest known h in (step.seen, step.goes_on);
  read_waits = λ s key id h. answer-none key (behind s key id) h;
  read_gives = λ s key id l h. answer-some key (behind s key id) l h;
  add_here = λ s key id new max v made known room. put-here s key id new v made known;
  add_elsewhere = λ s key other id max v h.
      ap (λ l. entries (value 0 id) (drop (value 0 id) l)) (change-other key other (put v) s h);
  add_known = λ s key other id max v known. put-Seen s key other id v known;
  del_read = λ s key id i v rest known h. cross-behind s key id i v rest known h;
}

reads-fine : (key : String) (l : List Entry) (e : String) → answer key l ≢ some (err e)
reads-fine key [] e h = ground (arith, h)
reads-fine key (x ∷ l) e h = ground (arith, h)

read_from-fine : (keys : List String) (s : Streams) (e : String) → read_from keys s ≢ some (err e)
read_from-fine [] s e h = ground (arith, h)
read_from-fine (key ∷ []) s e h = ground (arith, h)
read_from-fine (key ∷ id ∷ []) s e h = reads-fine key (behind s key id) e h
read_from-fine (key ∷ id ∷ x ∷ l) s e h = ground (arith, h)

pub memory-IsUp : IsUp memory
memory-IsUp = record {
  adds = λ s key max v. (itoa (suc (length (s key))), refl);
  reads = λ s keys count block e h. read_from-fine keys s e h;
}

abbrev pub no_streams : Streams
no_streams key = []

pub nothing_there : (key : String) → memory_laws.after no_streams key "0" ≡ []
unfolding memory_laws
nothing_there key = refl
