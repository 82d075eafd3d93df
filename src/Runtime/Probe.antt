-- ===== src/Runtime/Probe.antt =====
-- src/suitcode/runtime/coordinator.py: which symbol of a file the warm-up probe asks about.
use code_suit.Base.{
  ℕ, ◌+◌, Bool, ◌&&◌, not, Option, none, some, List, [], ◌∷◌, ◌++◌, contains, nat_eq, if◌then◌else◌,
}
use code_suit.Base.Int.{ℤ, is_negative, to_ℕ}

pub data ServerFamily : Type 0 where
  gopls basedpyright typescript_language_server : ServerFamily

-- `_ELIGIBLE_WARMUP_SYMBOL_KINDS`
unfoldable pub eligible_kinds : ServerFamily → List ℕ
eligible_kinds gopls = 6 ∷ 10 ∷ 11 ∷ 12 ∷ 23 ∷ []
eligible_kinds basedpyright = 5 ∷ 6 ∷ 12 ∷ []
eligible_kinds typescript_language_server = 5 ∷ 6 ∷ 10 ∷ 11 ∷ 12 ∷ []

-- What the probe reads of a symbol: its kind, and where its selection range starts.
pub record Heading : Type 0 where
  pub kind : ℕ
  pub line : ℤ
  pub character : ℤ

mutual
  pub data DocumentSymbol : Type 0 where
    document_symbol : Heading → DocumentSymbols → DocumentSymbol

  pub data DocumentSymbols : Type 0 where
    no_symbols : DocumentSymbols
    more_symbols : DocumentSymbol → DocumentSymbols → DocumentSymbols

-- `_walk_document_symbols`: a symbol, then its children, then the symbols after it.
unfoldable pub walk_document_symbols : DocumentSymbols → List Heading
walk_document_symbols no_symbols = []
walk_document_symbols (more_symbols (document_symbol h children) rest) =
    h ∷ walk_document_symbols children ++ walk_document_symbols rest

-- An eligible kind, at a place in the file.
unfoldable pub probed : ServerFamily → Heading → Bool
unfolding eligible_kinds nat_eq
probed family h =
    contains (eligible_kinds family) h.kind
    && not (is_negative h.line)
    && not (is_negative h.character)

unfoldable pub first_probed : ServerFamily → List Heading → Option Heading
unfolding probed
first_probed family [] = none
first_probed family (h ∷ hs) =
    let later = first_probed family hs in if probed family h then some h else later

unfoldable pub select_probe_symbol : ServerFamily → DocumentSymbols → Option Heading
unfolding first_probed walk_document_symbols
select_probe_symbol family symbols = first_probed family (walk_document_symbols symbols)

-- The line and column of a request count from 1.
unfoldable pub position : Heading → ℕ × ℕ
position h = (to_ℕ h.line + 1, to_ℕ h.character + 1)
