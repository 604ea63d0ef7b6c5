-- ===== src/Quant/Workset/Buffer.antt =====
-- What the workset relies on of `boost::circular_buffer`, and a list that meets it.
use itex_demo.Base.{
  ℕ, ◌-◌, ◌≡◌, refl, Bool, Option, List, [], ◌∷◌, ◌++◌, length, get_elem?, drop, ◌==◌,
}

-- The last `n` items of a list.
abbrev pub keep_last : {A : Type 0} → ℕ → List A → List A
keep_last n xs = drop (length xs - n) xs

-- `at` is `operator[]`; an index out of range is `none`. `items` is the content, oldest first.
pub record CircularBuffer (A : Type 0) : Type 1 where
  pub Buffer : Type 0
  pub create : ℕ → Buffer
  pub push_back : Buffer → A → Buffer
  pub at : Buffer → ℕ → Option A
  pub size : Buffer → ℕ
  pub empty : Buffer → Bool
  pub full : Buffer → Bool
  pub capacity : Buffer → ℕ
  pub items : Buffer → List A
  pub items-create : (n : ℕ) → items (create n) ≡ []
  pub capacity-create : (n : ℕ) → capacity (create n) ≡ n
  pub items-push_back :
      (b : Buffer) (a : A) → items (push_back b a) ≡ keep_last (capacity b) (items b ++ (a ∷ []))
  pub capacity-push_back : (b : Buffer) (a : A) → capacity (push_back b a) ≡ capacity b
  pub at_lem : (b : Buffer) (i : ℕ) → at b i ≡ get_elem? (items b) i
  pub size_lem : (b : Buffer) → size b ≡ length (items b)
  pub empty_lem : (b : Buffer) → empty b ≡ (length (items b) == 0)
  pub full_lem : (b : Buffer) → full b ≡ (length (items b) == capacity b)

abbrev pub list_buffer : (A : Type 0) → CircularBuffer A
list_buffer A = record {
  Buffer = ℕ × List A;
  create = λ n. (n, []);
  push_back = λ b a. (b.0, keep_last b.0 (b.1 ++ (a ∷ [])));
  at = λ b i. get_elem? b.1 i;
  size = λ b. length b.1;
  empty = λ b. length b.1 == 0;
  full = λ b. length b.1 == b.0;
  capacity = λ b. b.0;
  items = λ b. b.1;
  items-create = λ n. refl;
  capacity-create = λ n. refl;
  items-push_back = λ b a. refl;
  capacity-push_back = λ b a. refl;
  at_lem = λ b i. refl;
  size_lem = λ b. refl;
  empty_lem = λ b. refl;
  full_lem = λ b. refl;
}
