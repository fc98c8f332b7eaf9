-- ===== src/Source/Generate.antt =====
-- datasource/SimDataSource.cpp: the generated depth, disparity and confidence maps and the point cloud. `double`,
-- `float` and their operations are parameters.
use sim_vision_sdk.Prelude.{
  ℕ, zero, suc, ◌-◌, ◌*◌, ◌%◌, ◌^◌, ◌<◌, ◌≡◌, refl, true, false, Option, none, some, List, [], ◌++◌,
  Text, text, text_eq, if◌then◌else◌, arith, length, ltb, length-append, Bool-cases, inl, inr,
}
use sim_vision_sdk.Prelude.Int.{ℤ, pos, negsuc, pos_part}

pub record Real : Type 1 where
  -- `double`, and `float` with the bytes of a value in memory
  pub Double : Type 0
  pub Float : Type 0
  pub bytes : Float → List ℕ
  -- `static_cast<double>` of a number, and the literal `m` at `k` places behind the point
  pub of_nat : ℕ → Double
  pub literal : ℕ → ℕ → Double
  pub add : Double → Double → Double
  pub sub : Double → Double → Double
  pub mul : Double → Double → Double
  pub div : Double → Double → Double
  pub sin : Double → Double
  pub cos : Double → Double
  pub to_float : Double → Float
  pub literal_f : ℕ → ℕ → Float
  pub of_nat_f : ℕ → Float
  pub add_f : Float → Float → Float
  pub mul_f : Float → Float → Float
  pub div_f : Float → Float → Float
  pub min_f : Float → Float → Float
  pub max_f : Float → Float → Float

-- `sizeof(float)` is 4.
abbrev pub SizeLaw : Real → Type 0
SizeLaw R = (x : R.Float) → length (R.bytes x) ≡ 4

-- `for (i = 0; i < n; ++i)` with what each round appends
unfoldable pub each : ℕ → (ℕ → List ℕ) → List ℕ
each zero f = []
each (suc n) f = each n f ++ f n

-- the conversion to `size_t`
abbrev pub to_size : ℤ → ℕ
to_size (pos n) = n
to_size (negsuc n) = 2 ^ 64 - 1 - n

-- the most bytes that a vector may hold
abbrev pub max_size : ℕ
max_size = 2 ^ 63 - 1

module _ (R : Real) where
  open R use {
    Float, Double, bytes, of_nat, literal, add, sub, mul, div, sin, cos, to_float, literal_f,
    of_nat_f, add_f, mul_f, div_f, min_f, max_f,
  }

  -- The two loops, row by row; `none` is the `std::length_error` of `reserve` or of the row.
  unfoldable pub image_of : ℤ → ℤ → (ℕ → ℕ → Float) → Option (List ℕ)
  image_of width height sample =
      if ltb max_size ((to_size width * to_size height * 4) % 2 ^ 64)
      then none
      else if ltb max_size (to_size width * 4)
      then none
      else some (each (pos_part height) (λ y. each (pos_part width) (λ x. bytes (sample x y))))

  abbrev pub time : ℕ → ℕ → Double
  time frame_index hundredths = mul (of_nat frame_index) (literal hundredths 2)

  unfoldable pub generate_depth : ℤ → ℤ → ℕ → Option (List ℕ)
  generate_depth width height frame_index =
      let t = time frame_index 5 in
      image_of width height (λ x y.
        let nx = div (of_nat x) (of_nat (pos_part width)) in
        let ny = div (of_nat y) (of_nat (pos_part height)) in
        let wave =
          mul (sin (add (mul nx (literal 60 1)) t)) (cos (add (mul ny (literal 40 1)) t)) in
        let d = add_f (literal_f 5 1) (mul_f (literal_f 5 1) (to_float wave)) in
        add_f (literal_f 3 1) (mul_f (literal_f 7 1) d))

  unfoldable pub generate_disparity : ℤ → ℤ → ℕ → Option (List ℕ)
  generate_disparity width height frame_index =
      let t = time frame_index 5 in
      image_of width height (λ x y.
        let a = mul (literal 160 1) (sin (add (mul (of_nat x) (literal 5 2)) t)) in
        let b = mul (literal 80 1) (cos (add (mul (of_nat y) (literal 7 2)) t)) in
        to_float (sub (add (literal 320 1) a) b))

  unfoldable pub generate_confidence : ℤ → ℤ → ℕ → Option (List ℕ)
  generate_confidence width height frame_index =
      let t = time frame_index 3 in
      image_of width height (λ x y.
        let angle = add (add (mul (of_nat x) (literal 2 2)) (mul (of_nat y) (literal 2 2))) t in
        let c = add_f (literal_f 5 1) (mul_f (literal_f 5 1) (to_float (sin angle))) in
        min_f (literal_f 10 1) (max_f (literal_f 0 1) c))

  unfoldable pub points_of : Text → ℕ
  points_of depth_mode =
      if text_eq depth_mode (text "NONE")
      then 0
      else if text_eq depth_mode (text "PERFORMANCE")
      then 5000
      else if text_eq depth_mode (text "NEURAL_LIGHT")
      then 10000
      else if text_eq depth_mode (text "QUALITY")
      then 20000
      else if text_eq depth_mode (text "NEURAL")
      then 40000
      else if text_eq depth_mode (text "ULTRA")
      then 60000
      else if text_eq depth_mode (text "NEURAL_PLUS")
      then 80000
      else 40000

  abbrev pub point : ℕ → Double → ℕ → List ℕ
  point points t i =
      let a = mul (div (of_nat i) (of_nat points)) (literal 62831853 7) in
      let r = add (literal 10 1) (mul (literal 5 1) (sin (add (mul a (literal 30 1)) t))) in
      let p0 = to_float (mul r (cos (add a t))) in
      let p1 = to_float (mul r (sin (add a t))) in
      let p2 = to_float (mul (cos (add (mul a (literal 20 1)) t)) (literal 20 1)) in
      let p3 = div_f (of_nat_f i) (of_nat_f points) in
      bytes p0 ++ (bytes p1 ++ (bytes p2 ++ bytes p3))

  unfoldable pub generate_pointcloud : Text → ℕ → List ℕ
  generate_pointcloud depth_mode frame_index =
      let points = points_of depth_mode in each points (point points (time frame_index 5))

  -- Rounds of `k` bytes each append as many times `k` bytes.
  length-each :
      (n k : ℕ) (f : ℕ → List ℕ) → ((i : ℕ) → length (f i) ≡ k) → length (each n f) ≡ n * k
  unfolding each
  length-each zero k f h = omega arith
  length-each (suc n) k f h =
      omega (arith, length-append (each n f) (f n), length-each n k f h, h n)

  -- This many bytes came out.
  abbrev pub HasSize : ℕ → Option (List ℕ) → Type 0
  HasSize n none = ⊥
  HasSize n (some out) = length out ≡ n

  small_size : (n : ℕ) → n < 2 ^ 63 → ltb max_size (n % 2 ^ 64) ≡ false
  small_size n lt = ground (arith, lt)

  small_row : (w : ℕ) → w < 2 ^ 31 → ltb max_size (w * 4) ≡ false
  small_row w lt = ground (arith, lt)

  image_of-HasSize :
      (w h : ℕ) (sample : ℕ → ℕ → Float)
      → SizeLaw R
      → w < 2 ^ 31
      → w * h * 4 < 2 ^ 63
      → HasSize (h * (w * 4)) (image_of (pos w) (pos h) sample)
  unfolding image_of
  image_of-HasSize w h sample law lt small = rw (small_size (w * h * 4) small) (
      rw (small_row w lt) (
        length-each h (w * 4) (λ y. each w (λ x. bytes (sample x y)))
          (λ y. length-each w 4 (λ x. bytes (sample x y)) (λ x. law (sample x y)))))

  -- If a `float` takes 4 bytes, the three maps of an image of `w` by `h` pixels that fits a vector have 4 bytes for
  -- each pixel.
  pub generate-HasSize :
      (w h frame_index : ℕ)
      → SizeLaw R
      → w < 2 ^ 31
      → w * h * 4 < 2 ^ 63
      → HasSize (h * (w * 4)) (generate_depth (pos w) (pos h) frame_index)
        × HasSize (h * (w * 4)) (generate_disparity (pos w) (pos h) frame_index)
        × HasSize (h * (w * 4)) (generate_confidence (pos w) (pos h) frame_index)
  unfolding generate_depth generate_disparity generate_confidence
  generate-HasSize w h frame_index law lt small = (
    image_of-HasSize w h _ law lt small,
    image_of-HasSize w h _ law lt small,
    image_of-HasSize w h _ law lt small,
  )

  image_of_negative :
      (k : ℕ) (height : ℤ) (sample : ℕ → ℕ → Float)
      → k < 2 ^ 31
      → image_of (negsuc k) height sample ≡ none
  unfolding image_of
  image_of_negative k height sample lt =
      let wide : ltb max_size (to_size (negsuc k) * 4) ≡ true = ground (arith, lt) in
      elim (Bool-cases (ltb max_size ((to_size (negsuc k) * to_size height * 4) % 2 ^ 64))) [
        | inl e ↦ rw e refl
        | inr e ↦ rw e (rw wide refl)
      ]

  -- With a negative width each of the three maps ends in an exception.
  pub generate_negative :
      (k frame_index : ℕ) (height : ℤ)
      → k < 2 ^ 31
      → (generate_depth (negsuc k) height frame_index ≡ none)
        × (generate_disparity (negsuc k) height frame_index ≡ none)
        × (generate_confidence (negsuc k) height frame_index ≡ none)
  unfolding generate_depth generate_disparity generate_confidence
  generate_negative k frame_index height lt = (
    image_of_negative k height _ lt,
    image_of_negative k height _ lt,
    image_of_negative k height _ lt,
  )

  four-length :
      (a b c d : List ℕ)
      → length a ≡ 4
      → length b ≡ 4
      → length c ≡ 4
      → length d ≡ 4
      → length (a ++ (b ++ (c ++ d))) ≡ 16
  four-length a b c d ea eb ec ed = omega (
    arith,
    ea,
    eb,
    ec,
    ed,
    length-append a (b ++ (c ++ d)),
    length-append b (c ++ d),
    length-append c d,
  )

  length-point : (points : ℕ) (t : Double) (i : ℕ) → SizeLaw R → length (point points t i) ≡ 16
  length-point points t i law =
      four-length (bytes _) (bytes _) (bytes _) (bytes _) (law _) (law _) (law _) (law _)

  -- If a `float` takes 4 bytes, the point cloud has 16 bytes for each of its points.
  pub length-generate_pointcloud :
      (depth_mode : Text) (frame_index : ℕ)
      → SizeLaw R
      → length (generate_pointcloud depth_mode frame_index) ≡ points_of depth_mode * 16
  unfolding generate_pointcloud
  length-generate_pointcloud depth_mode frame_index law =
      length-each (points_of depth_mode) 16 _
        (λ i. length-point (points_of depth_mode) (time frame_index 5) i law)
