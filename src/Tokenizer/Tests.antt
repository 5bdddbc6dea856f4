-- ===== src/Tokenizer/Tests.antt =====
-- A small vocabulary: "un", "##able", and the special tokens.
use claw.Base.{ℕ, true, ◌≡◌, ◌≤◌, refl, arith, not, some, List, [], ◌∷◌, All, keep_if}
use claw.Base.Bytes.{Bytes, codes}
use claw.Base.Dict.{Dict}
use claw.Tokenizer.Defs.{
  WordPieceTokenizer, TokenizedInput, is_space, normalize_text, basic_tokenize, word_piece_tokenize,
  all_pieces, load_vocab, tokenize, unk,
}
use claw.Tokenizer.Basic.{flatten, IsToken, Splits, basic_tokenize_lem}
use claw.Tokenizer.Greedy.{IsGreedy, word_piece_tokenize-IsGreedy}

abbrev vocab : Dict Bytes ℕ
vocab = (codes "un", 4) ∷ (codes "##able", 5) ∷ []

abbrev tokenizer : WordPieceTokenizer
tokenizer = record { vocab = vocab; cls_id = 0; sep_id = 1; unk_id = 2; pad_id = 3 }

basic_tokenize_lem_example :
    (flatten (basic_tokenize (codes "no, un")) ≡ keep_if (λ c. not (is_space c)) (codes "no, un"))
    × All IsToken (basic_tokenize (codes "no, un"))
    × Splits (codes "no, un") (basic_tokenize (codes "no, un"))
basic_tokenize_lem_example = basic_tokenize_lem (codes "no, un")

basic_tokenize_test : basic_tokenize (codes "no, un") ≡ codes "no" ∷ codes "," ∷ codes "un" ∷ []
unfolding claw.Tokenizer.Defs.basic_from is_space claw.Tokenizer.Defs.is_punct
basic_tokenize_test = refl

word_piece_tokenize-IsGreedy_example :
    (ps : List Bytes) × (word_piece_tokenize vocab (codes "unable") ≡ some ps)
    × IsGreedy vocab true (codes "unable") ps
word_piece_tokenize-IsGreedy_example = word_piece_tokenize-IsGreedy vocab (codes "unable")

word_piece_tokenize_test :
    word_piece_tokenize vocab (codes "unablex") ≡ some (codes "un" ∷ codes "##able" ∷ unk ∷ [])
unfolding word_piece_tokenize claw.Tokenizer.Defs.pieces claw.Tokenizer.Defs.best_match
    claw.Base.Dict.lookup
word_piece_tokenize_test = refl

load_vocab_test : (load_vocab tokenizer (some (codes "[PAD] " ∷ codes "[CLS]" ∷ []))).0 ≡ record {
  vocab = (codes "[PAD]", 0) ∷ (codes "[CLS]", 1) ∷ [];
  cls_id = 1;
  sep_id = 0;
  unk_id = 0;
  pad_id = 0;
}
unfolding load_vocab claw.Base.Dict.lookup claw.Base.Dict.insert
load_vocab_test = refl
