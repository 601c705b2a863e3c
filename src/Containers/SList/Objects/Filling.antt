-- ===== src/Containers/SList/Objects/Filling.antt =====
-- A temporary list that is filled one value at a time, and is destroyed if that throws.
use cpp_core_systems.Prelude.{
  suc, ◌+◌, ◌<◌, ◌≡◌, refl, true, none, List, [], ◌∷◌, ◌++◌, arith, length, length-append,
  append-nil, append_assoc, sym, ◌∙◌,
}
use cpp_core_systems.Containers.Heap.{Ptr, null, Heap, write, New, IsFresh}
use cpp_core_systems.Containers.Heap.Access.{new_node-Ends}
use cpp_core_systems.Containers.Heap.Ends.{Ends, Never, returns, weaken, then_run, unwind}
use cpp_core_systems.Containers.Heap.Linked.{
  Cells, values, has, has-append, values-append, SameOutside, not-has_of_none,
}
use cpp_core_systems.Containers.SList.{SList, empty_list, size_mod}
use cpp_core_systems.Containers.SList.Shape.{IsList}
use cpp_core_systems.Containers.SList.Back.{emplace_back_lem}
use cpp_core_systems.Containers.SList.Clear.{Without, clear_lem}
use cpp_core_systems.Containers.SList.Objects.{
  push_or_unwind, fill, adopt, from_values, from_value, destroy,
}

-- Since the store was `h`, the list `l` has been built from nodes that were unused then, and
-- nothing else has changed.
pub record Built {ℓ} {A : Type ℓ} (h : Heap A) (ys : Cells A) (l : SList) (g : Heap A)
    : Type ℓ where
  pub is_list : IsList g l ys
  pub fresh : (a : Ptr) → has a ys ≡ true → h a ≡ none
  pub same : SameOutside ys h g

-- What an exception leaves: the store as it was.
abbrev pub Untouched {ℓ} : {A : Type ℓ} → Heap A → Heap A → Type ℓ
Untouched h g = (a : Ptr) → g a ≡ h a

module _ {ℓ} {A : Type ℓ} (h : Heap A) where
  pub Built-empty : Built h [] empty_list h
  Built-empty = record {
    is_list = record {
      chain = tt;
      head = refl;
      tail = refl;
      size = refl;
      before = refl;
      fits = omega arith;
    };
    fresh = λ a i. cc;
    same = λ a o. refl;
  }

  pub Built-append :
      (ys : Cells A) (l l' : SList) (g g' : Heap A) (p : Ptr) (v : A)
      → Built h ys l g
      → IsList g' l' (ys ++ ((p, v) ∷ []))
      → g p ≡ none
      → SameOutside ((p, v) ∷ ys) g g'
      → Built h (ys ++ ((p, v) ∷ [])) l' g'
  Built-append ys l l' g g' p v b is unused same =
      let out = not-has_of_none g null p ys b.is_list.chain unused in
      record {
        is_list = is;
        fresh = λ a i. ground (arith, has-append a ys ((p, v) ∷ []), b.fresh a, b.same p);
        same = λ a o. ground (arith, has-append a ys ((p, v) ∷ []), same a, b.same a);
      }

  pub destroy_lem :
      (l : SList) (xs : Cells A) → IsList h l xs → Ends (λ _. Without xs h) Never (destroy l h)
  unfolding destroy
  destroy_lem l xs is = weaken (clear_lem h l xs is) (λ l' g (e, is', gone). gone) (λ _ e. e)

module _ {ℓ} {A : Type ℓ} (h : Heap A) where
  -- adopt hands the temporary's nodes over, and destroys an empty list.
  pub adopt_lem :
      (new : New A) (ys : Cells A) (l : SList) (g : Heap A)
      → Built h ys l g
      → Ends (Built h ys) Never (adopt new l g)
  unfolding adopt
  adopt_lem new ys l g b = returns (record {
    is_list = record {
      chain = b.is_list.chain;
      head = b.is_list.head;
      tail = b.is_list.tail;
      size = b.is_list.size;
      before = b.is_list.head;
      fits = b.is_list.fits;
    };
    fresh = b.fresh;
    same = b.same;
  })

  module _ (new : New A) (is_fresh : IsFresh new) where
    pub push_or_unwind_lem :
        (ys : Cells A) (l : SList) (g : Heap A) (v : A)
        → Built h ys l g
        → suc (length ys) < size_mod
        → Ends
            (λ l' g'. (p : Ptr) × Built h (ys ++ ((p, v) ∷ [])) l' g')
            (Untouched h)
            (push_or_unwind new l v g)
    unfolding push_or_unwind
    push_or_unwind_lem ys l g v b room =
        unwind {G = λ _. Without ys g}
          (weaken (emplace_back_lem new is_fresh g v l ys b.is_list room)
            (λ l' g' (p, (is, unused, same)). (p, Built-append h ys l l' g g' p v b is unused same))
            (λ g' e. e))
          (λ g' e. rw e (destroy_lem g l ys b.is_list))
          (λ _ g' gone a. ground (arith, gone a, b.same a, b.fresh a))

    fill_lem :
        (vs : List A) (ys : Cells A) (l : SList) (g : Heap A)
        → Built h ys l g
        → length ys + length vs < size_mod
        → Ends
            (λ l' g'. (zs : Cells A) × (values zs ≡ values ys ++ vs) × Built h zs l' g')
            (Untouched h)
            (fill new vs l g)
    unfolding fill
    fill_lem [] ys l g b room = returns (ys, sym (append-nil (values ys)), b)
    fill_lem (v ∷ vs) ys l g b room =
        then_run (push_or_unwind_lem ys l g v b (omega arith))
          (λ l' g' (p, b').
            weaken
              (fill_lem vs (ys ++ ((p, v) ∷ [])) l' g' b'
                (omega (arith, length-append ys ((p, v) ∷ []))))
              (λ l'' g'' (zs, e, b'').
                (zs, e ∙ rw (values-append ys ((p, v) ∷ []), append_assoc), b''))
              (λ _ e. e))
          (λ _ e. e)

    -- For an allocator that returns unused non-null addresses, and fewer than 2^64 values, the
    -- initializer-list constructor ends: it returns a list of new nodes with exactly these values
    -- in order; or an allocation throws, and every node allocated on the way is freed again.
    pub from_values_lem :
        (vs : List A)
        → length vs < size_mod
        → Ends
            (λ l g. (zs : Cells A) × (values zs ≡ vs) × Built h zs l g)
            (Untouched h)
            (from_values new vs h)
    unfolding from_values
    from_values_lem vs room =
        then_run (fill_lem vs [] empty_list h (Built-empty h) (omega arith))
          (λ l g (zs, e, b).
            weaken (adopt_lem new zs l g b) (λ l' g' b'. (zs, e, b')) (λ _ e. absurd e))
          (λ _ e. e)

    -- SList(value): one new node.
    pub from_value_lem :
        (v : A)
        → Ends (λ l g. (p : Ptr) × Built h ((p, v) ∷ []) l g) (Untouched h) (from_value new v h)
    unfolding from_value write
    from_value_lem v =
        then_run (new_node-Ends new is_fresh h v)
          (λ p g (ne, unused, e). rw e (
            returns (
              p,
              record {
                is_list = record {
                  chain = (ne, ground arith, refl, tt);
                  head = refl;
                  tail = refl;
                  size = refl;
                  before = refl;
                  fits = omega arith;
                };
                fresh = λ a i. ground arith;
                same = λ a o. ground arith;
              },
            )))
          (λ g e a. ground arith)
