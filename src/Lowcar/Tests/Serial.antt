-- ===== src/Lowcar/Tests/Serial.antt =====
-- A serial line, as the port of the tests.
use c_runtime.Prelude.{
  ℕ, zero, suc, ◌≡◌, refl, List, [], ◌∷◌, ◌++◌, true, false, length, All, arith,
}
use c_runtime.Prelude.{◌==◌}
use c_runtime.Message.Cobs.Blocks.{IsNonzero}
use c_runtime.Lowcar.Types.{Port}
use c_runtime.Lowcar.Messenger.Ports.{IsPort}

pub record Line : Type 0 where
  pub pending : List ℕ
  pub sent : List ℕ

abbrev pub first_of : List ℕ → ℕ × List ℕ
first_of [] = (255, [])
first_of (b ∷ bs) = (b, bs)

abbrev pub line_peek : List ℕ → ℕ
line_peek [] = 255
line_peek (b ∷ bs) = b

abbrev pub split_until : ℕ → ℕ → List ℕ → List ℕ × List ℕ
split_until delim zero bytes = ([], bytes)
split_until delim (suc n) [] = ([], [])
split_until delim (suc n) (b ∷ bytes) = elim (b == delim) [
  | true ↦ ([], bytes)
  | false ↦ (b ∷ (split_until delim n bytes).0, (split_until delim n bytes).1)
]

unfoldable pub line_port : Port Line
line_port = record {
  available = λ line. length line.pending;
  read_byte =
      λ line. ((first_of line.pending).0, record line { pending = (first_of line.pending).1 });
  peek = λ line. line_peek line.pending;
  read_bytes_until = λ line delim n. (
    (split_until delim n line.pending).0,
    record line { pending = (split_until delim n line.pending).1 },
  );
  write_bytes = λ line bytes. (length bytes, record line { sent = line.sent ++ bytes });
}

split_until-append :
    (bytes rest : List ℕ)
    → All IsNonzero bytes
    → split_until 0 (length bytes) (bytes ++ rest) ≡ (bytes, rest)
split_until-append [] rest h = refl
split_until-append (b ∷ bytes) rest h = ground (arith, h.0, split_until-append bytes rest h.1)

pub line_port-IsPort : IsPort line_port (λ line. line.pending) (λ line. line.sent)
unfolding line_port
line_port-IsPort = record {
  available_lem = λ s. refl;
  read_byte_lem = λ s b bs e. rw e (refl, refl);
  peek_lem = λ s b bs e. rw e refl;
  read_bytes_until_lem = λ s bytes rest e h. rw (e, split_until-append bytes rest h) (refl, refl);
  write_bytes_lem = λ s bytes. (refl, refl);
}
