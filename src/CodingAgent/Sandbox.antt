-- ===== src/CodingAgent/Sandbox.antt =====
-- The paths that examples/coding_agent/tools.py lets through.
use fleet_llm_inference.Common.{
  String, Bool, true, false, ◌||◌, List, [], ◌∷◌, ◌++◌, map, ◌==◌, any, ◌≡◌, ◌≢◌, refl, ap, sym,
  ◌∙◌, arith, eq_iff, eq_refl, Bool-cases, inl, inr, ◌⊎◌,
}
use fleet_llm_inference.Common.Newlines.{universal_newlines, has_return, newlines_after_same}
use fleet_llm_inference.Common.Split.{split}
use fleet_llm_inference.Common.Raises.{ok}
use fleet_llm_inference.CodingAgent.{
  FilePath, Files, same_path, parents, in_sandbox, resolve, resolve_from, start_of, read_text,
  write_text, with_content, read_file, write_file, parent,
}

-- `path` is the sandbox or below it.
abbrev pub Within : FilePath → FilePath → Type 0
Within root path = (rest : FilePath) × (path ≡ root ++ rest)

same_path-eq : (p q : FilePath) → same_path p q ≡ true → p ≡ q
same_path-eq [] [] h = refl
same_path-eq [] (y ∷ q) h = cc
same_path-eq (x ∷ p) [] h = cc
same_path-eq (x ∷ p) (y ∷ q) h = elim (Bool-cases (x == y)) [
  | inl e ↦ let r = same_path-eq p q (ground (arith, e, h)) in let n = (eq_iff x y).0 e in cc
  | inr e ↦ absurd (ground (arith, e, h))
]

append_nil : (p : FilePath) → p ++ [] ≡ p
append_nil [] = refl
append_nil (x ∷ p) = ap (λ q. x ∷ q) (append_nil p)

same_path_refl : (p : FilePath) → same_path p p ≡ true
same_path_refl [] = refl
same_path_refl (x ∷ p) = ground (arith, eq_refl x, same_path_refl p)

any-below :
    (x y : String) (root : FilePath) (ps : List FilePath)
    → any (same_path (x ∷ root)) (map (λ (p : FilePath). y ∷ p) ps) ≡ true
    → (x ≡ y) × (any (same_path root) ps ≡ true)
any-below x y root [] h = cc
any-below x y root (p ∷ ps) h = elim (Bool-cases (same_path (x ∷ root) (y ∷ p))) [
  | inl e ↦ elim (Bool-cases (x == y)) [
    | inl q ↦ ((eq_iff x y).0 q, ground (arith, e, q))
    | inr q ↦ absurd (ground (arith, e, q))
  ]
  | inr e ↦
      let (q, r) = any-below x y root ps (rw e at h) in
      (q, elim (Bool-cases (same_path root p)) [ inl t ↦ rw t refl | inr t ↦ rw t r ])
]

any-none :
    (y : String) (ps : List FilePath)
    → any (same_path []) (map (λ (p : FilePath). y ∷ p) ps) ≡ false
any-none y [] = refl
any-none y (p ∷ ps) = any-none y ps

parents-Within :
    (root path : FilePath) → any (same_path root) (parents path) ≡ true → Within root path
unfolding parents
parents-Within root [] h = cc
parents-Within [] (y ∷ path) h = (y ∷ path, refl)
parents-Within (x ∷ root) (y ∷ path) h =
    let (e, k) = any-below x y root (parents path) h in
    let (rest, r) = parents-Within root path k in (rest, cc)

or-right : (a b : Bool) → a ≡ false → (a || b) ≡ true → b ≡ true
or-right true b e h = cc
or-right false b e h = h

or-intro : (a b : Bool) → b ≡ true → (a || b) ≡ true
or-intro true b h = refl
or-intro false b h = h

in_sandbox-Within : (root path : FilePath) → in_sandbox root path ≡ true → Within root path
unfolding in_sandbox
in_sandbox-Within root path h = elim (Bool-cases (same_path path root)) [
  | inl e ↦ ([], same_path-eq path root e ∙ sym (append_nil root))
  | inr e ↦
      parents-Within root path
        (or-right (same_path path root) (any (same_path root) (parents path)) e h)
]

-- A call of the tool that raises leaves the files as they are, or empties a file of the sandbox where the
-- text cannot be encoded.
abbrev pub Raises : FilePath → String → String → Files → Files → Type 0
Raises root path content s s' =
    (s' ≡ s)
    ⊎ ((resolved : FilePath) × (s.encodes content ≡ false)
        × ((resolve root path s).1 ≡ ok resolved)
        × Within root resolved
        × (s' ≡ with_content resolved "" s))

-- Each call of the tool: it writes, or raises.
write_file_lem :
    (root : FilePath) (path content : String) (s : Files)
    → let (s', r) = write_file root path content s in
      ((resolved : FilePath) × ((resolve root path s).1 ≡ ok resolved)
        × Within root resolved
        × (r ≡ ok tt)
        × (s' ≡ with_content resolved content s))
      ⊎ ((r ≢ ok tt) × Raises root path content s s')
unfolding write_file write_text resolve
write_file_lem root path content s =
    let names = split b'/' path in
    let p = resolve_from s (start_of root names) names in
    elim (Bool-cases (in_sandbox root p)) [
      | inl e ↦ elim (Bool-cases (s.is_directory (parent p))) [
        | inl d ↦ elim (Bool-cases (s.is_directory p)) [
          | inl f ↦ inr (rw e (rw d (rw f (λ q. cc))), rw e (rw d (rw f (inl refl))))
          | inr f ↦ elim (Bool-cases (s.encodes content)) [
            | inl t ↦ inl (
              p,
              rw e refl,
              in_sandbox-Within root p e,
              rw e (rw d (rw f (rw t refl))),
              rw e (rw d (rw f (rw t refl))),
            )
            | inr t ↦ inr (
              rw e (rw d (rw f (rw t (λ q. cc)))),
              inr (p, t, rw e refl, in_sandbox-Within root p e, rw e (rw d (rw f (rw t refl)))),
            )
          ]
        ]
        | inr d ↦ inr (rw e (rw d (λ q. cc)), rw e (rw d (inl refl)))
      ]
      | inr e ↦ inr (rw e (λ q. cc), rw e (inl refl))
    ]

same_path-other :
    (root resolved q : FilePath)
    → Within root resolved
    → ((rest : FilePath) → q ≢ root ++ rest)
    → same_path q resolved ≡ false
same_path-other root resolved q (rest, w) outside = elim (Bool-cases (same_path q resolved)) [
  | inl e ↦ absurd (outside rest (same_path-eq q resolved e ∙ w))
  | inr e ↦ e
]

resolve_from-written :
    (p : FilePath) (content : String) (s : Files) (names : List String) (base : FilePath)
    → resolve_from (with_content p content s) base names ≡ resolve_from s base names
unfolding resolve_from
resolve_from-written p content s [] base = refl
resolve_from-written p content s (name ∷ names) base = resolve_from-written p content s names _

read_file-written :
    (root : FilePath) (path : String) (p : FilePath) (content : String) (s : Files)
    → (resolve root path s).1 ≡ ok p
    → (read_file root path (with_content p content s)).1 ≡ ok (universal_newlines content)
unfolding read_file read_text resolve
read_file-written root path p content s e =
    let names = split b'/' path in
    rw (resolve_from-written p content s names (start_of root names))
      (rw e (rw (same_path_refl p) refl))

-- What a write of one file of the sandbox leaves alone.
with_content-frame :
    (root p : FilePath) (content : String) (s s' : Files)
    → Within root p
    → s' ≡ with_content p content s
    → ((q : FilePath) → ((rest : FilePath) → q ≢ root ++ rest) → s'.contents q ≡ s.contents q)
      × (s'.is_directory ≡ s.is_directory)
      × (s'.links ≡ s.links)
with_content-frame root p content s s' w c = (
  λ q outside. ap (λ t. t.contents q) c ∙ rw (same_path-other root p q w outside) refl,
  ap (λ t. t.is_directory) c,
  ap (λ t. t.links) c,
)

Raises-frame :
    (root : FilePath) (path content : String) (s s' : Files)
    → Raises root path content s s'
    → ((q : FilePath) → ((rest : FilePath) → q ≢ root ++ rest) → s'.contents q ≡ s.contents q)
      × (s'.is_directory ≡ s.is_directory)
      × (s'.links ≡ s.links)
Raises-frame root path content s s' (inl c) =
    (λ q outside. ap (λ t. t.contents q) c, ap (λ t. t.is_directory) c, ap (λ t. t.links) c)
Raises-frame root path content s s' (inr (p, t, e, w, c)) = with_content-frame root p "" s s' w c

-- Whatever the path, the links and the files are: a call of the tool leaves every file outside the
-- sandbox as it is, with all directories and links. When it raises, it changes nothing, or the text
-- cannot be encoded and the one file that the path names, in the sandbox, is left empty. When it returns,
-- the same path reads the text that was written, with the ends of its lines as "\n", and so exactly that
-- text where it has no "\r".
pub write_file-sandbox :
    (root : FilePath) (path content : String) (s : Files)
    → let (s', r) = write_file root path content s in
      ((q : FilePath) → ((rest : FilePath) → q ≢ root ++ rest) → s'.contents q ≡ s.contents q)
      × (s'.is_directory ≡ s.is_directory)
      × (s'.links ≡ s.links)
      × (r ≢ ok tt → Raises root path content s s')
      × (r ≡ ok tt → (read_file root path s').1 ≡ ok (universal_newlines content))
      × (r ≡ ok tt → has_return content ≡ false → (read_file root path s').1 ≡ ok content)
write_file-sandbox root path content s = elim (write_file_lem root path content s) [
  | inl (p, e, w, r, c) ↦
      let (outside, directories, links) = with_content-frame root p content s _ w c in
      let reads =
        ap (λ t. (read_file root path t).1) c ∙ read_file-written root path p content s e in
      (
        outside,
        directories,
        links,
        λ h. absurd (h r),
        λ h. reads,
        λ h plain. reads ∙ ap (λ t. ok t) (newlines_after_same content plain),
      )
  | inr (r, c) ↦
      let (outside, directories, links) = Raises-frame root path content s _ c in
      (outside, directories, links, λ h. c, λ h. absurd (r h), λ h. absurd (r h))
]
