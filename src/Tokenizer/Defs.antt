-- ===== src/Tokenizer/Defs.antt =====
-- The vocabulary and the methods of WordPieceTokenizer. A text is its bytes.
use claw.Base.{
  ℕ, zero, suc, ◌+◌, ◌-◌, Bool, true, false, ◌&&◌, ◌||◌, Option, none, some, List, [], ◌∷◌, ◌++◌,
  map, leb, ◌==◌, nat_eq, length, take, drop, replicate, if◌then◌else◌,
}
use claw.Base.Int.{ℤ, pos, pos_part, leb_ℤ}
use claw.Base.Bytes.{Bytes, codes, bytes_eq}
use claw.Base.Dict.{Dict, lookup, insert, member}

pub record WordPieceTokenizer : Type 0 where
  pub vocab : Dict Bytes ℕ
  pub cls_id : ℕ
  pub sep_id : ℕ
  pub unk_id : ℕ
  pub pad_id : ℕ

pub record TokenizedInput : Type 0 where
  pub input_ids : List ℕ
  pub attention_mask : List ℕ
  pub token_type_ids : List ℕ

is_trailing : ℕ → Bool
is_trailing c = c == 0x0d || c == 0x0a || c == 0x20

-- while (!line.empty() && ...) line.pop_back();
strip_line : Bytes → Bytes
unfolding is_trailing
strip_line [] = []
strip_line (c ∷ cs) = elim (strip_line cs) [
  | [] ↦ if is_trailing c then [] else c ∷ []
  | d ∷ ds ↦ c ∷ d ∷ ds
]

add_lines : List Bytes → ℕ → Dict Bytes ℕ → Dict Bytes ℕ
add_lines [] id vocab = vocab
add_lines (line ∷ rest) id vocab = add_lines rest (suc id) (insert (strip_line line) id vocab)

find_id : Dict Bytes ℕ → Bytes → ℕ
find_id vocab token = elim (lookup token vocab) [ none ↦ 0 | some id ↦ id ]

abbrev is_loaded : Dict Bytes ℕ → Bool
is_loaded [] = false
is_loaded (x ∷ m) = true

-- The lines of the vocabulary file, or `none` where it cannot be opened.
unfoldable pub load_vocab : WordPieceTokenizer → Option (List Bytes) → WordPieceTokenizer × Bool
unfolding strip_line add_lines find_id
load_vocab t none = (t, false)
load_vocab t (some lines) =
    let vocab = add_lines lines 0 [] in
    (
      record {
        vocab = vocab;
        cls_id = find_id vocab (codes "[CLS]");
        sep_id = find_id vocab (codes "[SEP]");
        unk_id = find_id vocab (codes "[UNK]");
        pad_id = find_id vocab (codes "[PAD]");
      },
      is_loaded vocab,
    )

unfoldable pub lower : ℕ → ℕ
lower c = if leb 0x41 c && leb c 0x5a then c + 32 else c

abbrev pub normalize_text : Bytes → Bytes
normalize_text = map lower

-- std::ispunct and std::isspace of the C locale, below 0x80.
unfoldable pub is_punct : ℕ → Bool
is_punct c =
    (leb 0x21 c && leb c 0x2f)
    || (leb 0x3a c && leb c 0x40)
    || (leb 0x5b c && leb c 0x60)
    || (leb 0x7b c && leb c 0x7e)

unfoldable pub is_space : ℕ → Bool
is_space c = c == 0x20 || (leb 0x09 c && leb c 0x0d)

-- if (!current.empty()) tokens.push_back(current);
abbrev pub flush : Bytes → List Bytes → List Bytes
flush [] tokens = tokens
flush (c ∷ cs) tokens = (c ∷ cs) ∷ tokens

-- The loop of BasicTokenize: the tokens to come, given the current one.
unfoldable pub basic_from : Bytes → Bytes → List Bytes
basic_from current [] = flush current []
basic_from current (c ∷ text) =
    let rest = basic_from (if is_space c || is_punct c then [] else current ++ (c ∷ [])) text in
    if is_space c
    then flush current rest
    else if is_punct c
    then flush current ((c ∷ []) ∷ rest)
    else rest

abbrev pub basic_tokenize : Bytes → List Bytes
basic_tokenize text = basic_from [] text

abbrev pub mark : Bool → Bytes
mark true = []
mark false = codes "##"

abbrev pub unk : Bytes
unk = codes "[UNK]"

-- The inner loop: the end goes down from the end of the token until the piece is in the vocabulary.
-- `first` says that the start is 0.
unfoldable pub best_match : Dict Bytes ℕ → Bool → Bytes → ℕ → Option ℕ
best_match vocab first rest zero = none
best_match vocab first rest (suc n) =
    if member (mark first ++ take (suc n) rest) vocab
    then some (suc n)
    else best_match vocab first rest n

-- The outer loop from a start on, on fuel: `none` means that the fuel ran out.
unfoldable pub pieces : ℕ → Dict Bytes ℕ → Bool → Bytes → Option (List Bytes)
pieces fuel vocab first [] = some []
pieces zero vocab first (c ∷ cs) = none
pieces (suc fuel) vocab first (c ∷ cs) = elim (best_match vocab first (c ∷ cs) (length (c ∷ cs))) [
  | none ↦ some (unk ∷ [])
  | some n ↦ elim (pieces fuel vocab false (drop n (c ∷ cs))) [
    | none ↦ none
    | some later ↦ some ((mark first ++ take n (c ∷ cs)) ∷ later)
  ]
]

-- Each turn takes a byte at least, so that the length of the token is fuel enough.
unfoldable pub word_piece_tokenize : Dict Bytes ℕ → Bytes → Option (List Bytes)
word_piece_tokenize vocab [] = some []
word_piece_tokenize vocab (c ∷ cs) =
    if member (c ∷ cs) vocab
    then some ((c ∷ cs) ∷ [])
    else pieces (length (c ∷ cs)) vocab true (c ∷ cs)

unfoldable pub all_pieces : Dict Bytes ℕ → List Bytes → Option (List Bytes)
all_pieces vocab [] = some []
all_pieces vocab (token ∷ rest) = elim (word_piece_tokenize vocab token) [
  | none ↦ none
  | some sub ↦ elim (all_pieces vocab rest) [ none ↦ none | some later ↦ some (sub ++ later) ]
]

unfoldable pub token_to_id : WordPieceTokenizer → Bytes → ℕ
token_to_id t token = elim (lookup token t.vocab) [ none ↦ t.unk_id | some id ↦ id ]

-- while (size < max_length) push_back(fill)
abbrev pub pad : ℕ → ℕ → List ℕ → List ℕ
pad max_length fill xs = xs ++ replicate (max_length - length xs) fill

abbrev pub build : WordPieceTokenizer → ℕ → List Bytes → TokenizedInput
build t max_length tokens =
    let ids = t.cls_id ∷ (map (token_to_id t) (take (max_length - 2) tokens) ++ (t.sep_id ∷ [])) in
    record {
      input_ids = pad max_length t.pad_id ids;
      attention_mask = pad max_length 0 (replicate (length ids) 1);
      token_type_ids = pad max_length 0 (replicate (length ids) 0);
    }

-- Below a length of 2 the number for resize is negative, and resize throws: `none`.
unfoldable pub tokenize : WordPieceTokenizer → Bytes → ℤ → Option TokenizedInput
tokenize t text max_length =
    if leb_ℤ (pos 2) max_length
    then (elim (all_pieces t.vocab (basic_tokenize (normalize_text text))) [
      | none ↦ none
      | some tokens ↦ some (build t (pos_part max_length) tokens)
    ])
    else none
