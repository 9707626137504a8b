-- ===== src/Disk/Entries.antt =====
-- What the calls leave alone, and what they write.
use kkode.Prelude.{
  List, [], ◌∷◌, ◌≡◌, ◌≢◌, refl, ap, ◌∙◌, arith, none, some, Result, ok, err, Bool-cases,
  Option-cases, inl, inr, ◌⊎◌,
}
use kkode.Strings.{Text}
use kkode.Strings.Prefixes.{text_eq_iff, text_eq_refl, text_eq_ne}
use kkode.Disk.{
  Node, file, directory, OsError, Disk, Call, lookup, erase, put, read_file, mkdir_each, mkdir_all,
  write_file, remove, and_then, levels, dir_of, has_below,
}

pub lookup-put_self : (d : Disk) (p : Text) (n : Node) → lookup (put d p n) p ≡ some n
unfolding lookup put
lookup-put_self d p n = rw (text_eq_refl p)

pub lookup-put_ne : (d : Disk) (p q : Text) (n : Node) → p ≢ q → lookup (put d p n) q ≡ lookup d q
unfolding lookup put
lookup-put_ne d p q n h = rw (text_eq_ne p q h)

pub lookup-erase_self : (d : Disk) (p : Text) → lookup (erase d p) p ≡ none
unfolding lookup erase
lookup-erase_self [] p = refl
lookup-erase_self ((q, n) ∷ d) p = ground (arith, lookup-erase_self d p)

pub lookup-erase_ne : (d : Disk) (p q : Text) → p ≢ q → lookup (erase d p) q ≡ lookup d q
unfolding lookup erase
lookup-erase_ne [] p q h = refl
lookup-erase_ne ((r, n) ∷ d) p q h =
    ground (arith, lookup-erase_ne d p q, text_eq_iff r p, text_eq_iff r q)

-- An entry that was there before is there after, as it was.
abbrev pub Keeps : Text → Disk → Disk → Type 0
Keeps q d d' = (n : Node) → lookup d q ≡ some n → lookup d' q ≡ some n

pub entry_cases :
    (d : Disk) (p : Text)
    → (lookup d p ≡ none)
      ⊎ ((lookup d p ≡ some directory) ⊎ ((t : Text) × (lookup d p ≡ some (file t))))
entry_cases d p = elim (Option-cases (lookup d p)) [
  | inl e ↦ inl e
  | inr (directory, e) ↦ inr (inl e)
  | inr (file t, e) ↦ inr (inr (t, e))
]

absent_ne : (d : Disk) (p q : Text) (n : Node) → lookup d p ≡ none → lookup d q ≡ some n → p ≢ q
absent_ne d p q n e h s = cc (ap (lookup d) s)

-- Directories are made only where nothing stands.
mkdir_each-Keeps : (ps : List Text) (d : Disk) (q : Text) → Keeps q d (mkdir_each ps d).1
unfolding mkdir_each
mkdir_each-Keeps [] d q n h = h
mkdir_each-Keeps (p ∷ ps) d q n h = elim (entry_cases d p) [
  | inl e ↦
      rw (e, mkdir_each)
        (mkdir_each-Keeps ps (put d p directory) q n
          (lookup-put_ne d p q directory (λ s. absent_ne d p q n e h s) ∙ h))
  | inr (inl e) ↦ rw (e, mkdir_each) (mkdir_each-Keeps ps d q n h)
  | inr (inr (t, e)) ↦ rw (e, mkdir_each) h
]

pub mkdir_all-Keeps : (p : Text) (d : Disk) (q : Text) → Keeps q d (mkdir_all p d).1
unfolding mkdir_all
mkdir_all-Keeps p d q = mkdir_each-Keeps (levels [] p) d q

pub write_file-Keeps : (p t : Text) (d : Disk) (q : Text) → p ≢ q → Keeps q d (write_file p t d).1
unfolding write_file
write_file-Keeps p t d q h n e = elim (entry_cases d p) [
  | inl a ↦
      rw (a, write_file)
        (elim (entry_cases d (dir_of p)) [
          | inl b ↦ rw (b, write_file) e
          | inr (inl b) ↦ rw (b, write_file) (lookup-put_ne d p q (file t) h ∙ e)
          | inr (inr (u, b)) ↦ rw (b, write_file) e
        ])
  | inr (inl a) ↦ rw (a, write_file) e
  | inr (inr (u, a)) ↦ rw (a, write_file) (lookup-put_ne d p q (file t) h ∙ e)
]

pub lookup-remove_ne :
    (p : Text) (d : Disk) (q : Text) → p ≢ q → lookup (remove p d).1 q ≡ lookup d q
unfolding remove
lookup-remove_ne p d q h = elim (entry_cases d p) [
  | inl a ↦ rw (a, remove) refl
  | inr (inl a) ↦
      rw (a, remove)
        (elim (Bool-cases (has_below d p)) [
          | inl b ↦ rw (b, remove) refl
          | inr b ↦ rw (b, remove) (lookup-erase_ne d p q h)
        ])
  | inr (inr (u, a)) ↦ rw (a, remove) (lookup-erase_ne d p q h)
]

pub remove-Keeps : (p : Text) (d : Disk) (q : Text) → p ≢ q → Keeps q d (remove p d).1
remove-Keeps p d q h n e = lookup-remove_ne p d q h ∙ e

-- A call that succeeds has done what it is for.
pub write_file_lem :
    (p t : Text) (d : Disk)
    → (write_file p t d).0 ≡ ok tt
    → lookup (write_file p t d).1 p ≡ some (file t)
unfolding write_file
write_file_lem p t d = elim (entry_cases d p) [
  | inl a ↦
      rw (a, write_file)
        (elim (entry_cases d (dir_of p)) [
          | inl b ↦ rw (b, write_file) (λ h. cc h)
          | inr (inl b) ↦ rw (b, write_file) (λ h. lookup-put_self d p (file t))
          | inr (inr (u, b)) ↦ rw (b, write_file) (λ h. cc h)
        ])
  | inr (inl a) ↦ rw (a, write_file) (λ h. cc h)
  | inr (inr (u, a)) ↦ rw (a, write_file) (λ h. lookup-put_self d p (file t))
]

pub remove_lem : (p : Text) (d : Disk) → (remove p d).0 ≡ ok tt → lookup (remove p d).1 p ≡ none
unfolding remove
remove_lem p d = elim (entry_cases d p) [
  | inl a ↦ rw (a, remove) (λ h. cc)
  | inr (inl a) ↦
      rw (a, remove)
        (elim (Bool-cases (has_below d p)) [
          | inl b ↦ rw (b, remove) (λ h. cc h)
          | inr b ↦ rw (b, remove) (λ h. lookup-erase_self d p)
        ])
  | inr (inr (u, a)) ↦ rw (a, remove) (λ h. lookup-erase_self d p)
]

-- Where the second call was reached and has succeeded.
pub and_then-ok :
    (c : Call) (f : Disk → Call) → (and_then c f).0 ≡ ok tt → (c.0 ≡ ok tt) × (and_then c f ≡ f c.1)
unfolding and_then
and_then-ok (ok u, d) f h = (refl, refl)
and_then-ok (err e, d) f h = cc

pub read_file-entry : (d : Disk) (p t : Text) → read_file d p ≡ ok t → lookup d p ≡ some (file t)
unfolding read_file
read_file-entry d p t = elim (entry_cases d p) [
  | inl a ↦ rw (a, read_file) (λ h. cc)
  | inr (inl a) ↦ rw (a, read_file) (λ h. cc)
  | inr (inr (u, a)) ↦ rw (a, read_file) (λ h. ap (λ v. some (file v)) (ok_path u t h))
]
  where
    ok_path : (u t : Text) → ◌≡◌ {A = Result OsError Text} (ok u) (ok t) → u ≡ t
    ok_path u t h = ground arith
