-- ===== src/Containers/SList/Compare.antt =====
-- operator== and operator<<.
use cpp_core_systems.Prelude.{
  ℕ, zero, suc, ◌<◌, ◌≡◌, refl, Bool, true, false, not, ◌&&◌, List, [], ◌∷◌, ◌++◌, arith, ◌==◌,
  if◌then◌else◌, length, Bool-cases, inl, inr, append-nil, append_assoc, ◌∙◌, sym, subst, ap,
}
use cpp_core_systems.Containers.Heap.{Ptr, null, Heap, ok, out_of_fuel, Cmd, pure, ◌>>=◌, load}
use cpp_core_systems.Containers.Heap.Access.{load-ok, not_null, eq_self}
use cpp_core_systems.Containers.Heap.Linked.{Cells, values, first, last, has, has-last, Linked}
use cpp_core_systems.Containers.SList.{SList}
use cpp_core_systems.Containers.SList.Shape.{IsList}

module _ {ℓ} {A : Type ℓ} (eq : A → A → Bool) where
  -- while (a) { … a = a->next(); b = b->next(); }
  equal_loop : ℕ → (a b : Ptr) → Cmd A Bool
  equal_loop zero a b = λ _. out_of_fuel
  equal_loop (suc k) a b = if a == null then pure true else do
    m ← load a
    n ← load b
    if not (eq m.value n.value) then pure false else equal_loop k m.next n.next

  unfoldable pub equal : SList → SList → Cmd A Bool
  unfolding equal_loop
  equal l r = if not (l.size == r.size) then pure false else equal_loop (suc l.size) l.head r.head

  -- Equality of sequences of values.
  abbrev pub all_equal : List A → List A → Bool
  all_equal [] [] = true
  all_equal [] (w ∷ ws) = false
  all_equal (v ∷ vs) [] = false
  all_equal (v ∷ vs) (w ∷ ws) = eq v w && all_equal vs ws

  equal_loop_lem :
      (k : ℕ) (h : Heap A) (xs ys : Cells A)
      → Linked h null xs
      → Linked h null ys
      → length xs ≡ length ys
      → length xs < k
      → equal_loop k (first xs null) (first ys null) h ≡ ok (all_equal (values xs) (values ys)) h
  unfolding equal_loop
  equal_loop_lem zero h xs ys l m e fuel = absurd (omega arith)
  equal_loop_lem (suc k) h [] [] l m e fuel = refl
  equal_loop_lem (suc k) h [] (y ∷ ys) l m e fuel = absurd (omega arith)
  equal_loop_lem (suc k) h (x ∷ xs) [] l m e fuel = absurd (omega arith)
  equal_loop_lem (suc k) h ((p, v) ∷ xs) ((q, w) ∷ ys) (ne, live, out, l) (ne', live', out', m) e
        fuel =
      rw
        (
          not_null p ne,
          load-ok h p (first xs null) v ne live,
          load-ok h q (first ys null) w ne' live',
        )
        (elim (Bool-cases (eq v w)) [
          | inl hit ↦ rw hit (equal_loop_lem k h xs ys l m (omega arith) (omega arith))
          | inr miss ↦ rw miss
        ])

  all_equal-length :
      (vs ws : Cells A)
      → (length vs == length ws) ≡ false
      → all_equal (values vs) (values ws) ≡ false
  all_equal-length [] [] e = cc
  all_equal-length [] (w ∷ ws) e = refl
  all_equal-length (v ∷ vs) [] e = refl
  all_equal-length ((p, v) ∷ vs) ((q, w) ∷ ws) e = ground (arith, all_equal-length vs ws)

  -- For two lists in one store, operator== returns whether their values are equal one by one, under
  -- the equality of the values, and changes nothing; its loop reads no null pointer.
  pub equal_lem :
      (h : Heap A) (l r : SList) (xs ys : Cells A)
      → IsList h l xs
      → IsList h r ys
      → equal l r h ≡ ok (all_equal (values xs) (values ys)) h
  unfolding equal
  equal_lem h l r xs ys is is' =
      rw (is.size, is'.size, is.head, is'.head)
        (elim (Bool-cases (length xs == length ys)) [
          | inl same ↦ rw same (
              equal_loop_lem (suc (length xs)) h xs ys is.chain is'.chain (ground arith)
                (omega arith))
          | inr longer ↦ rw (longer, all_equal-length xs ys longer)
        ])

-- `show` is operator<< of the values, as code units.
module _ {ℓ} {A : Type ℓ} (show : A → List ℕ) where
  abbrev pub comma : List ℕ
  comma = b',' ∷ b' ' ∷ []

  -- while (node) { stream << node->m_value; … }, with what the stream holds.
  unfoldable pub print_loop : ℕ → Ptr → Ptr → List ℕ → Cmd A (List ℕ)
  print_loop zero tail p out = λ _. out_of_fuel
  print_loop (suc k) tail p out = if p == null then pure out else do
    n ← load p
    let out = out ++ show n.value
    print_loop k tail n.next (if not (p == tail) then out ++ comma else out)

  unfoldable pub print : SList → List ℕ → Cmd A (List ℕ)
  unfolding print_loop
  print l out = print_loop (suc l.size) l.tail l.head out

  -- The values, with ", " between them and nowhere else.
  abbrev pub joined : List A → List ℕ
  joined [] = []
  joined (v ∷ []) = show v
  joined (v ∷ w ∷ ws) = show v ++ (b',' ∷ b' ' ∷ joined (w ∷ ws))

  -- The node is not the last one, so a comma follows.
  between :
      (h : Heap A) (p tail q : Ptr) (w : A) (xs : Cells A)
      → tail ≡ last q xs
      → has p ((q, w) ∷ xs) ≡ false
      → (p == tail) ≡ false
  between h p tail q w xs e away = ground (arith, has-last q w xs, apart)
    where
      apart : p ≡ tail → ⊥
      apart same =
          cc (subst (λ a. has a ((q, w) ∷ xs) ≡ true) (sym (same ∙ e)) (has-last q w xs), away)

  print_loop_lem :
      (k : ℕ) (h : Heap A) (p tail : Ptr) (v : A) (xs : Cells A) (out : List ℕ)
      → Linked h null ((p, v) ∷ xs)
      → tail ≡ last p xs
      → suc (length xs) < k
      → print_loop k tail p out h ≡ ok (out ++ joined (v ∷ values xs)) h
  unfolding print_loop
  print_loop_lem zero h p tail v xs out l e fuel = absurd (omega arith)
  print_loop_lem (suc zero) h p tail v xs out l e fuel = absurd (omega arith)
  print_loop_lem (suc (suc k)) h p tail v [] out (ne, live, away, l) e fuel =
      rw (not_null p ne, load-ok h p null v ne live, e, eq_self p)
  print_loop_lem (suc (suc k)) h p tail v ((q, w) ∷ xs) out (ne, live, away, l) e fuel =
      rw (not_null p ne, load-ok h p q v ne live, between h p tail q w xs e away)
        (print_loop_lem (suc k) h q tail w xs ((out ++ show v) ++ comma) l e (omega arith)
          ∙ ap (λ text. ok text h) (simp append_assoc))

  -- On a list, operator<< appends to the stream the texts of the values in order with a comma and a
  -- space between two of them, and changes nothing.
  pub print_lem :
      (h : Heap A) (l : SList) (xs : Cells A) (out : List ℕ)
      → IsList h l xs
      → print l out h ≡ ok (out ++ joined (values xs)) h
  unfolding print print_loop
  print_lem h l [] out is = rw (is.head, append-nil)
  print_lem h l ((p, v) ∷ xs) out is =
      rw is.head
        (print_loop_lem (suc l.size) h p l.tail v xs out is.chain is.tail (omega (arith, is.size)))
