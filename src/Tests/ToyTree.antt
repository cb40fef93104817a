-- ===== src/Tests/ToyTree.antt =====
-- A tree library for the tests of packages/danaus/src/actors/repo/transactor.ts: a root is the text
-- of the log of its writes, the latest first.
use Prim.Native.Char.{Char, code, nul}
use Prim.Native.String as Str
use Prim.Native.String.{char_at, count, [] as empty_text}
use Prim.Native.String.count.{cons}
use danaus.Prelude.{
  ℕ, zero, suc, ◌+◌, ◌≤◌, String, ◌≡◌, refl, ◌∙◌, Option, none, some, List, [], ◌∷◌, arith,
  if◌then◌else◌, str_eq, ◌==◌,
}

abbrev mark : Char
mark = char_at "a" 0

-- A text that ends where its end is marked, before another.
abbrev pub put_text : String → String → String
put_text Str.[] rest = Str.◌∷◌ nul rest
put_text (Str.◌∷◌ c s) rest = Str.◌∷◌ mark (Str.◌∷◌ c (put_text s rest))

abbrev pub get_text : String → String × String
get_text Str.[] = (empty_text, empty_text)
get_text (Str.◌∷◌ f Str.[]) = (empty_text, empty_text)
get_text (Str.◌∷◌ f (Str.◌∷◌ c s)) =
    let rest = get_text s in
    if code f == 0 then (empty_text, Str.◌∷◌ c s) else (Str.◌∷◌ c rest.0, rest.1)

pub get-put_text : (s rest : String) → get_text (put_text s rest) ≡ (s, rest)
get-put_text Str.[] Str.[] = refl
get-put_text Str.[] (Str.◌∷◌ c s) = refl
get-put_text (Str.◌∷◌ c s) rest = rw (get-put_text s rest) refl

abbrev pub Log : Type 0
Log = List (String × Option String)

abbrev pub cell : Option String → String
cell none = empty_text
cell (some cid) = Str.◌∷◌ mark cid

abbrev pub uncell : String → Option String
uncell Str.[] = none
uncell (Str.◌∷◌ f cid) = some cid

abbrev pub print : Log → String
print [] = empty_text
print ((path, cid) ∷ log) = put_text path (put_text (cell cid) (print log))

abbrev pub lookup : Log → String → Option String
lookup [] path = none
lookup ((p, cid) ∷ log) path = let rest = lookup log path in if str_eq path p then cid else rest

abbrev pub search : ℕ → String → String → Option String
search zero root path = none
search (suc n) root path =
    let key = get_text root in
    let value = get_text key.1 in
    let rest = search n value.1 path in if str_eq path key.0 then uncell value.0 else rest

pub uncell-cell : (cid : Option String) → uncell (cell cid) ≡ cid
uncell-cell none = refl
uncell-cell (some cid) = refl

search-empty : (n : ℕ) (path : String) → search n empty_text path ≡ none
search-empty zero path = refl
search-empty (suc n) path = ground (arith, search-empty n path)

search-cons :
    (n : ℕ) (p : String) (cid : Option String) (s path : String)
    → search (suc n) (put_text p (put_text (cell cid) s)) path
      ≡ (if str_eq path p then cid else search n s path)
search-cons n p cid s path =
    rw (get-put_text p (put_text (cell cid) s))
      (rw (get-put_text (cell cid) s) (rw (uncell-cell cid) refl))

count-put_text : (s rest : String) → count rest + 1 ≤ count (put_text s rest)
count-put_text Str.[] rest = omega (arith, cons)
count-put_text (Str.◌∷◌ c s) rest = omega (arith, cons, count-put_text s rest)

search-print :
    (n : ℕ) (log : Log) (path : String)
    → count (print log) ≤ n
    → search n (print log) path ≡ lookup log path
search-print zero [] path h = refl
search-print (suc n) [] path h = search-empty (suc n) path
search-print zero ((p, cid) ∷ log) path h =
    absurd (omega (arith, count-put_text p (put_text (cell cid) (print log))))
search-print (suc n) ((p, cid) ∷ log) path h =
    search-cons n p cid (print log) path
    ∙ rw
        (search-print n log path (
          omega (
            arith,
            count-put_text p (put_text (cell cid) (print log)),
            count-put_text (cell cid) (print log),
          )))
        refl

-- The tree library, with the record of a repository being a text.
abbrev pub root_text : Option String → String
root_text none = empty_text
root_text (some root) = root

abbrev pub find : (String → Option (List ℕ)) → Option String → String → Option String
find store root path = search (count (root_text root)) (root_text root) path

abbrev pub write : Option String → String → Option String → Option String × List (String × List ℕ)
write root path cid = (some (put_text path (put_text (cell cid) (root_text root))), [])

-- The root is the text of a log that gives the map.
pub record Stands (root : Option String) (m : String → Option String) : Type 0 where
  pub log : Log
  pub printed : root_text root ≡ print log
  pub agrees : (path : String) → lookup log path ≡ m path

pub find-Stands :
    (store : String → Option (List ℕ)) (root : Option String) (m : String → Option String)
    (path : String)
    → Stands root m
    → find store root path ≡ m path
find-Stands store root m path t =
    rw t.printed (search-print (count (print t.log)) t.log path (omega arith) ∙ t.agrees path)

pub write-Stands :
    (root : Option String) (m : String → Option String) (path : String) (cid : Option String)
    → Stands root m
    → Stands (write root path cid).0 (λ q. if str_eq q path then cid else m q)
write-Stands root m path cid t = record {
  log = (path, cid) ∷ t.log;
  printed = rw t.printed refl;
  agrees = λ q. rw (t.agrees q) refl;
}
