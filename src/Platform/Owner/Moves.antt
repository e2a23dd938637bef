-- ===== src/Platform/Owner/Moves.antt =====
-- Objects that own resources, as `File` and `Thread` of include/corerat/platform/ do: they acquire,
-- dispose of what they own, and are moved. An operation on an object that does not exist is skipped.
use core_ra_t.Base.{
  ℕ, ◌+◌, ◌<◌, ◌≤◌, ◌≡◌, ◌≢◌, ◌&&◌, List, [], ◌∷◌, ◌++◌, arith, ltb, ltb→lt, ◌==◌, if◌then◌else◌,
  if-elim, length, length-set, get_or, get_or-set_self, get_or-set_ne, ap, set,
}
use core_ra_t.Platform.Owner.{count, IsOwned, count-set, count-snoc, count-get_or}

-- A class: its default object, what a move leaves of an object, and its operations on an object and
-- the table. `at_end` is how the destructor disposes.
pub record Impl (F C D : Type 0) : Type 0 where
  pub empty : F
  pub moved_from : F → F
  pub acquire : C → F → List ℕ → F × List ℕ
  pub dispose : D → F → List ℕ → F × List ℕ
  pub at_end : D

pub data Op (C D : Type 0) : Type 0 where
  construct : Op C D
  acquire_at : C → ℕ → Op C D
  dispose_at : D → ℕ → Op C D
  move_construct : ℕ → Op C D
  move_assign : ℕ → ℕ → Op C D
  destroy : ℕ → Op C D

pub record World (F : Type 0) : Type 0 where
  pub table : List ℕ
  pub objects : List F

-- What the table and the objects hold of a resource, before and after an operation of an object.
abbrev pub Within : {F : Type 0} → (F → List ℕ) → F → List ℕ → Type 0
Within owned f t = ((x : ℕ) → count x t ≤ 1) × ((x : ℕ) → count x (owned f) ≤ count x t)

abbrev pub Balances : {F : Type 0} → (F → List ℕ) → F → List ℕ → F × List ℕ → Type 0
Balances owned f t (f', t') =
    ((x : ℕ) → count x t' ≤ 1)
    × ((x : ℕ) → count x t' + count x (owned f) ≡ count x t + count x (owned f'))

pub record IsOwner {F C D : Type 0} (p : Impl F C D) (owned : F → List ℕ) : Type 0 where
  pub empty_lem : (x : ℕ) → count x (owned p.empty) ≡ 0
  pub moved_lem : (f : F) (x : ℕ) → count x (owned (p.moved_from f)) ≡ 0
  pub acquire_lem :
      (c : C) (f : F) (t : List ℕ) → Within owned f t → Balances owned f t (p.acquire c f t)
  pub dispose_lem :
      (d : D) (f : F) (t : List ℕ)
      → Within owned f t
      → Balances owned f t (p.dispose d f t) × ((x : ℕ) → count x (owned (p.dispose d f t).0) ≡ 0)

module _ {F C D : Type 0} (p : Impl F C D) where
  abbrev pub object : World F → ℕ → F
  object w i = get_or w.objects i p.empty

  -- The object is replaced and the table is the one after its operation.
  abbrev pub update : World F → ℕ → F × List ℕ → World F
  update w i (f, t) = record { table = t; objects = set w.objects i f }

  -- `*this` is another object, or nothing is done.
  abbrev pub assign : World F → ℕ → ℕ → World F
  assign w i j =
      let w1 = update w i (p.dispose p.at_end (object w i) w.table) in
      let f = object w1 j in record w1 { objects = set (set w1.objects i f) j (p.moved_from f) }

  unfoldable pub apply : World F → Op C D → World F
  apply w construct = record w { objects = w.objects ++ (p.empty ∷ []) }
  apply w (acquire_at c i) =
      if ltb i (length w.objects) then update w i (p.acquire c (object w i) w.table) else w
  apply w (dispose_at d i) =
      if ltb i (length w.objects) then update w i (p.dispose d (object w i) w.table) else w
  apply w (move_construct i) =
      if ltb i (length w.objects)
      then record w { objects = set w.objects i (p.moved_from (object w i)) ++ (object w i ∷ []) }
      else w
  apply w (move_assign i j) =
      if ltb i (length w.objects) && ltb j (length w.objects)
      then (if i == j then w else assign w i j)
      else w
  apply w (destroy i) =
      if ltb i (length w.objects) then update w i (p.dispose p.at_end (object w i) w.table) else w

  unfoldable pub run : World F → List (Op C D) → World F
  run w [] = w
  run w (op ∷ ops) = run (apply w op) ops

  module _ (owned : F → List ℕ) (law : IsOwner p owned) (others : List ℕ) where
    abbrev Holds : World F → Type 0
    Holds w = IsOwned owned others w.table w.objects

    within :
        (w : World F) (i : ℕ) → i < length w.objects → Holds w → Within owned (object w i) w.table
    within w i h v =
        (v.once, λ x. omega (arith, count-get_or owned x w.objects i p.empty h, v.shared_out x))

    update-Holds :
        (w : World F) (i : ℕ) (after : F × List ℕ)
        → i < length w.objects
        → Holds w
        → Balances owned (object w i) w.table after
        → Holds (update w i after)
    update-Holds w i (f, t) h v (once, sum) = record {
      once = once;
      shared_out =
          λ x. omega (arith, count-set owned x w.objects i f p.empty h, sum x, v.shared_out x);
    }

    assign-Holds :
        (w : World F) (i j : ℕ)
        → i < length w.objects
        → j < length w.objects
        → i ≢ j
        → Holds w
        → Holds (assign w i j)
    assign-Holds w i j hi hj ne v = record {
      once = v1.once;
      shared_out = λ x. omega (
        arith,
        v1.shared_out x,
        count-set owned x w1.objects i f p.empty hi1,
        count-set owned x (set w1.objects i f) j (p.moved_from f) p.empty hj1,
        ap (λ g. count x (owned g)) (get_or-set_self w.objects i after.0 p.empty hi),
        ap (λ g. count x (owned g)) (get_or-set_ne w1.objects i j f p.empty ne),
        law.moved_lem f x,
        disposed.1 x,
      );
    }
      where
        after : F × List ℕ
        after = p.dispose p.at_end (object w i) w.table

        disposed :
            Balances owned (object w i) w.table after × ((x : ℕ) → count x (owned after.0) ≡ 0)
        disposed = law.dispose_lem p.at_end (object w i) w.table (within w i hi v)

        w1 : World F
        w1 = update w i after

        f : F
        f = object w1 j

        v1 : Holds w1
        v1 = update-Holds w i after hi v disposed.0

        hi1 : i < length w1.objects
        hi1 = omega (arith, hi, length-set w.objects i after.0)

        hj1 : j < length (set w1.objects i f)
        hj1 = omega (arith, hj, length-set w.objects i after.0, length-set w1.objects i f)

    moved :
        (w : World F) (i : ℕ)
        → i < length w.objects
        → Holds w
        → Holds (record w {
          objects = set w.objects i (p.moved_from (object w i)) ++ (object w i ∷ []);
        })
    moved w i h v = record {
      once = v.once;
      shared_out = λ x. omega (
        arith,
        count-snoc owned x (set w.objects i (p.moved_from (object w i))) (object w i),
        count-set owned x w.objects i (p.moved_from (object w i)) p.empty h,
        law.moved_lem (object w i) x,
        v.shared_out x,
      );
    }

    apply-Holds : (w : World F) (op : Op C D) → Holds w → Holds (apply w op)
    unfolding apply
    apply-Holds w construct v = record {
      once = v.once;
      shared_out =
          λ x. omega (arith, count-snoc owned x w.objects p.empty, law.empty_lem x, v.shared_out x);
    }
    apply-Holds w (acquire_at c i) v =
        if-elim Holds (ltb i (length w.objects))
          (λ e.
            let h = ltb→lt i (length w.objects) e in
            update-Holds w i (p.acquire c (object w i) w.table) h v
              (law.acquire_lem c (object w i) w.table (within w i h v)))
          (λ e. v)
    apply-Holds w (dispose_at d i) v =
        if-elim Holds (ltb i (length w.objects))
          (λ e.
            let h = ltb→lt i (length w.objects) e in
            update-Holds w i (p.dispose d (object w i) w.table) h v
              (law.dispose_lem d (object w i) w.table (within w i h v)).0)
          (λ e. v)
    apply-Holds w (move_construct i) v =
        if-elim Holds (ltb i (length w.objects)) (λ e. moved w i (ltb→lt i (length w.objects) e) v)
          (λ e. v)
    apply-Holds w (move_assign i j) v =
        if-elim Holds (ltb i (length w.objects) && ltb j (length w.objects))
          (λ e.
            if-elim Holds (i == j) (λ same. v)
              (λ ne.
                assign-Holds w i j (ground (arith, e)) (ground (arith, e))
                  (λ s. ground (arith, ne, s)) v))
          (λ e. v)
    apply-Holds w (destroy i) v =
        if-elim Holds (ltb i (length w.objects))
          (λ e.
            let h = ltb→lt i (length w.objects) e in
            update-Holds w i (p.dispose p.at_end (object w i) w.table) h v
              (law.dispose_lem p.at_end (object w i) w.table (within w i h v)).0)
          (λ e. v)

    pub run-IsOwned : (w : World F) (ops : List (Op C D)) → Holds w → Holds (run w ops)
    unfolding run
    run-IsOwned w [] v = v
    run-IsOwned w (op ∷ ops) v = run-IsOwned (apply w op) ops (apply-Holds w op v)
