-- ===== src/Config/Sample.antt =====
-- Arithmetic for the tests: 256-bit numbers that wrap around.
use prism_rust_vivek.Prelude.{◌+◌, ◌-◌, ◌*◌, ◌%◌, ◌^◌, refl, arith}
use prism_rust_vivek.Config.{U256}

abbrev pub wrapping : U256
wrapping = record {
  add = λ a b. (a + b) % 2 ^ 256;
  sub = λ a b. a - b;
  mul = λ a b. a * b % 2 ^ 256;
  add_exact = λ a b h. omega arith;
  sub_exact = λ a b h. refl;
  mul_exact = λ a b h. omega arith;
}
