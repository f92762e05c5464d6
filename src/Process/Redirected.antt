-- ===== src/Process/Redirected.antt =====
-- The standard descriptors of a child.
use libcpp_core.Base.{
  ℕ, ◌≤◌, ◌≡◌, ◌≢◌, refl, sym, ap, ◌∙◌, false, Option, none, some, [], ◌∷◌, ◌==◌, arith,
}
use libcpp_core.Process.Child.{place, dup2, redirect_one, bind_files, redirect, files_of}

redirected :
    (i fd f : ℕ) (files : ℕ → Option ℕ)
    → files fd ≡ some f
    → redirect_one i (some fd) files ≡ some (place fd none (place i (some f) files))
unfolding redirect_one
redirected i fd f files e = rw e (unfold dup2 in refl)

moved :
    (a i : ℕ) (f : Option ℕ) (files : ℕ → Option ℕ) (n : ℕ)
    → n ≢ a
    → n ≢ i
    → place a none (place i f files) n ≡ files n
unfolding place
moved a i f files n na ni =
    let one : (n == a) ≡ false = ground arith in
    let two : (n == i) ≡ false = ground arith in rw (one, two) refl

-- Where a child is given three different descriptors above 2, each with a file: its standard
-- descriptors are these files, in their order, the given descriptors are closed, and any other one
-- above 2 is as it was.
pub files_of-given :
    (a b c f g h : ℕ) (files : ℕ → Option ℕ) (n : ℕ)
    → 3 ≤ a
    → 3 ≤ b
    → 3 ≤ c
    → a ≢ b
    → a ≢ c
    → b ≢ c
    → files a ≡ some f
    → files b ≡ some g
    → files c ≡ some h
    → 3 ≤ n
    → n ≢ a
    → n ≢ b
    → n ≢ c
    → (files' : ℕ → Option ℕ) × (files_of (some (some a, some b, some c)) files ≡ some files')
      × (files' 0 ≡ some f)
      × (files' 1 ≡ some g)
      × (files' 2 ≡ some h)
      × (files' a ≡ none)
      × (files' b ≡ none)
      × (files' c ≡ none)
      × (files' n ≡ files n)
unfolding files_of redirect bind_files
files_of-given a b c f g h files n la lb lc ab ac bc ea eb ec ln na nb nc =
    let eb1 : one b ≡ some g =
      moved a 0 (some f) files b (λ e. ab (sym e)) (λ e. omega arith) ∙ eb in
    let ec1 : one c ≡ some h =
      moved a 0 (some f) files c (λ e. ac (sym e)) (λ e. omega arith) ∙ ec in
    let ec2 : two c ≡ some h =
      moved b 1 (some g) one c (λ e. bc (sym e)) (λ e. omega arith) ∙ ec1 in
    (
      three,
      ap (λ r. bind_files r (redirect (some b ∷ some c ∷ []) 1)) (redirected 0 a f files ea)
          ∙ ap (λ r. bind_files r (redirect (some c ∷ []) 2)) (redirected 1 b g one eb1)
          ∙ ap (λ r. bind_files r (redirect [] 3)) (redirected 2 c h two ec2),
      (unfold place in ground arith),
      (unfold place in ground arith),
      (unfold place in ground arith),
      (unfold place in ground arith),
      (unfold place in ground arith),
      (unfold place in ground arith),
      moved c 2 (some h) two n nc (λ e. omega arith)
          ∙ moved b 1 (some g) one n nb (λ e. omega arith)
          ∙ moved a 0 (some f) files n na (λ e. omega arith),
    )
  where
    one : ℕ → Option ℕ
    one = place a none (place 0 (some f) files)

    two : ℕ → Option ℕ
    two = place b none (place 1 (some g) one)

    three : ℕ → Option ℕ
    three = place c none (place 2 (some h) two)

-- Where one descriptor above 2 is given for the standard output and for the standard error: the
-- first round closes it, and the child aborts in the second one. Where the standard output is given
-- as itself, it is closed.
pub files_of-shared :
    (c g h : ℕ) (files : ℕ → Option ℕ)
    → 3 ≤ c
    → files c ≡ some h
    → files 1 ≡ some g
    → (files_of (some (none, some c, some c)) files ≡ none)
      × ((files' : ℕ → Option ℕ) × (files_of (some (none, some 1, none)) files ≡ some files')
          × (files' 1 ≡ none))
unfolding files_of redirect bind_files redirect_one
files_of-shared c g h files lc ec eg = (
  ap (λ r. bind_files r (redirect (some c ∷ []) 2)) (redirected 1 c h files ec)
      ∙ ap (λ r. bind_files r (redirect [] 3))
          (closed_one (place c none (place 1 (some h) files)) (unfold place in ground arith)),
  (
    place 1 none (place 1 (some g) files),
    ap (λ r. bind_files r (redirect (none ∷ []) 2)) (redirected 1 1 g files eg),
    (unfold place in refl),
  ),
)
  where
    closed_one : (fs : ℕ → Option ℕ) → fs c ≡ none → redirect_one 2 (some c) fs ≡ none
    closed_one fs e = rw e (unfold dup2 in refl)
