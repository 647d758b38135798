-- ===== src/Memory/Fill.antt =====
-- What a kernel leaves in its output: the first `n` elements replaced by the values of a function.
use volk.Base.{ℕ, ◌+◌, ◌-◌, ◌*◌, ◌%◌, ◌≤◌, ◌<◌, ◌≡◌, refl, ap, ◌∙◌, fun_ext}
use volk.Base.{true, ◌&&◌, some, arith, ltb, leb, ◌==◌, if◌then◌else◌, lt→ltb, le→leb}
use volk.Base.{Bool-cases, inl, inr, ltb→lt}
use native.Mathlib.Nat.{add-mul-mod_self_left, mul_assoc}
use volk.Memory.{Buf, Access, aligned, unaligned, read, write, may_access, load, store}

abbrev pub fill : (ℕ → ℕ) → ℕ → Buf → Buf
fill f n b = record b { cell = λ j. if ltb j n then f j else b.cell j }

pub cell_ext :
    (b : Buf) (f g : ℕ → ℕ)
    → ((j : ℕ) → f j ≡ g j)
    → ◌≡◌ {A = Buf} (record b { cell = f }) (record b { cell = g })
cell_ext b f g h = ap (λ (c : ℕ → ℕ). record b { cell = c }) (fun_ext h)

pub fill-zero : (f : ℕ → ℕ) (b : Buf) → fill f 0 b ≡ b
fill-zero f b = cell_ext b (λ j. if ltb j 0 then f j else b.cell j) b.cell (λ j. ground arith)

-- Only the values below `n` matter.
pub fill_cong :
    (f g : ℕ → ℕ) (n : ℕ) (b : Buf) → ((j : ℕ) → j < n → f j ≡ g j) → fill f n b ≡ fill g n b
fill_cong f g n b h =
    cell_ext b (λ j. if ltb j n then f j else b.cell j) (λ j. if ltb j n then g j else b.cell j)
      (λ j. ground (arith, h j))

-- A function that undoes itself on the first `n` values, applied to them twice.
pub fill-fill :
    (g : ℕ → ℕ) (n : ℕ) (b : Buf)
    → ((j : ℕ) → j < n → g (g (b.cell j)) ≡ b.cell j)
    → fill (λ j. g ((fill (λ i. g (b.cell i)) n b).cell j)) n (fill (λ i. g (b.cell i)) n b) ≡ b
fill-fill g n b h =
    cell_ext b
      (λ j.
        if ltb j n
        then g (if ltb j n then g (b.cell j) else b.cell j)
        else if ltb j n
        then g (b.cell j)
        else b.cell j)
      b.cell
      (λ j. elim (Bool-cases (ltb j n)) [ inl e ↦ rw e (h j (ltb→lt j n e)) | inr e ↦ rw e refl ])

pub read_lem : (b : Buf) (i : ℕ) → i < b.size → read b i ≡ some (b.cell i)
unfolding read
read_lem b i h = rw (lt→ltb i b.size h)

pub read-fill :
    (f : ℕ → ℕ) (n : ℕ) (b : Buf) (i : ℕ)
    → n ≤ i
    → i < b.size
    → read (fill f n b) i ≡ some (b.cell i)
unfolding read
read-fill f n b i le lt = ground arith

write_cell :
    (f : ℕ → ℕ) (n : ℕ) (b : Buf) (v j : ℕ)
    → v ≡ f n
    → (if j == n then v else (fill f n b).cell j) ≡ (fill f (n + 1) b).cell j
write_cell f n b v j e = ground arith

pub write-fill :
    (f : ℕ → ℕ) (n : ℕ) (b : Buf) (v : ℕ)
    → n < b.size
    → v ≡ f n
    → write (fill f n b) n v ≡ some (fill f (n + 1) b)
unfolding write
write-fill f n b v h e = rw (lt→ltb n b.size h) (
    ap some (
      cell_ext b (λ j. if j == n then v else (fill f n b).cell j) (fill f (n + 1) b).cell
        (λ j. write_cell f n b v j e)))

store_cell :
    (f r : ℕ → ℕ) (n k : ℕ) (b : Buf) (j : ℕ)
    → ((l : ℕ) → l < k → r l ≡ f (n + l))
    → (if leb n j && ltb j (n + k) then r (j - n) else (fill f n b).cell j)
      ≡ (fill f (n + k) b).cell j
store_cell f r n k b j h = ground (arith, h (j - n), λ (p : n ≤ j). ap f (add_sub n j p))
  where
    add_sub : (n j : ℕ) → n ≤ j → n + (j - n) ≡ j
    add_sub n j p = omega arith

-- An access of the vector at element `i` is granted: it lies inside the array and, for the
-- aligned form, on a multiple of the vector's width.
abbrev pub Granted : Access → ℕ → ℕ → Buf → Type 0
Granted aligned w k b = b.base % (w * k) ≡ 0
Granted unaligned w k b = Unit {0}

pub may_access_block :
    (m : Access) (w k : ℕ) (b : Buf) (i : ℕ)
    → Granted m w k b
    → k * i + k ≤ b.size
    → may_access m w k b (k * i) ≡ true
unfolding may_access
may_access_block unaligned w k b i g h = ground arith
may_access_block aligned w k b i g h =
    rw (le→leb (k * i + k) b.size h, ← mul_assoc, add-mul-mod_self_left b.base (w * k) i, g)

pub may_access_unaligned :
    (w k : ℕ) (b : Buf) (o : ℕ) → o + k ≤ b.size → may_access unaligned w k b o ≡ true
unfolding may_access
may_access_unaligned w k b o h = le→leb (o + k) b.size h

pub load_lem :
    (m : Access) (w k : ℕ) (b : Buf) (o : ℕ)
    → may_access m w k b o ≡ true
    → load m w k b o ≡ some (λ l. b.cell (o + l))
unfolding load
load_lem m w k b o g = rw g

-- Filling leaves the address and the size alone, which is all that an access is checked against.
may_access-fill :
    (m : Access) (w k : ℕ) (f : ℕ → ℕ) (n : ℕ) (b : Buf) (o : ℕ)
    → may_access m w k (fill f n b) o ≡ may_access m w k b o
unfolding may_access
may_access-fill unaligned w k f n b o = refl
may_access-fill aligned w k f n b o = refl

pub store-fill :
    (m : Access) (w k : ℕ) (f r : ℕ → ℕ) (b : Buf) (o : ℕ)
    → may_access m w k b o ≡ true
    → ((l : ℕ) → l < k → r l ≡ f (o + l))
    → store m w k (fill f o b) o r ≡ some (fill f (o + k) b)
unfolding store
store-fill m w k f r b o g same = rw (may_access-fill m w k f o b o ∙ g) (ap some stored)
  where
    stored :
        ◌≡◌ {A = Buf}
          (record b {
            cell = λ j. if leb o j && ltb j (o + k) then r (j - o) else (fill f o b).cell j;
          })
          (fill f (o + k) b)
    stored = cell_ext b _ (fill f (o + k) b).cell (λ j. store_cell f r o k b j same)
