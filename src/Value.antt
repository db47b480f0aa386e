-- ===== src/Value.antt =====
-- Value variants, include/papuga/valueVariant.h, and their conversions in src/valueVariant.cpp. What they
-- use of textwolf, of the C library and of floating point numbers is a parameter.
pub mod Numerals
pub mod Ascii
pub mod Convert
pub mod Strings
pub mod Blob
pub mod Decimals
use papuga.Prelude.{ℕ, Bool, Option, List}
use papuga.Prelude.Int.{ℤ}
use papuga.Encoding.{StringEncoding}

-- papuga_ValueVariant, of a type of floating point numbers; objects, serializations and iterators are
-- addresses.
pub data Value (F : Type 0) : Type 0 where
  void : Value F
  double : F → Value F
  int : ℤ → Value F
  bool : Bool → Value F
  string : StringEncoding → List ℕ → Value F
  host_object : ℕ → Value F
  serialization : ℕ → Value F
  iterator : ℕ → Value F

-- A numeric variant.
pub data Number (F : Type 0) : Type 0 where
  as_double : F → Number F
  as_int : ℤ → Number F
  as_bool : Bool → Number F

-- The tests of types: papuga_ValueVariant_isstring, _isnumeric, and _defined.
pub data Kind (F : Type 0) : Type 0 where
  of_string : StringEncoding → List ℕ → Kind F
  of_number : Number F → Kind F
  of_object : Kind F
  of_void : Kind F

unfoldable pub kind : {F : Type 0} → Value F → Kind F
kind void = of_void
kind (double x) = of_number (as_double x)
kind (int n) = of_number (as_int n)
kind (bool b) = of_number (as_bool b)
kind (string encoding str) = of_string encoding str
kind (host_object p) = of_object
kind (serialization p) = of_object
kind (iterator p) = of_object

-- The scanner of textwolf, by the encoding: the characters of a string, and for each what `ascii()` gives.
-- Behind the last both give 0.
pub record Textwolf : Type 0 where
  pub chars : StringEncoding → List ℕ → List ℕ
  pub asciis : StringEncoding → List ℕ → List ℕ
  pub print : StringEncoding → ℕ → List ℕ
  -- A static buffer of a size after these bytes: what it holds, and whether it has overflowed.
  pub static_buffer : ℕ → List ℕ → List ℕ × Bool

-- The floating point numbers, and the C library on numbers as text.
pub record Numbers : Type 1 where
  pub Float : Type 0
  pub of_int : ℤ → Float
  pub above_max : Float → Bool
  pub is_positive : Float → Bool
  pub cast_up : Float → ℤ
  pub cast_down : Float → ℤ
  pub is_nonzero : Float → Bool
  pub print_double : Float → List ℕ
  pub print_int : ℤ → List ℕ
  pub scan_double : List ℕ → Option Float
  pub scan_int : List ℕ → Option ℤ
  pub scan_short : List ℕ → Option ℤ
  pub of_bool : Bool → Float
