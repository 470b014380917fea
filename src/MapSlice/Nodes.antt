-- ===== src/MapSlice/Nodes.antt =====
-- `New`: a YAML node as a slice of pairs.
use snake_runner.Base.{
  ℕ, Text, codes, List, [], ◌∷◌, Bool, true, false, ◌≡◌, refl, if◌then◌else◌, ◌↔◌, subst,
}
use snake_runner.MapSlice.{Pair}

pub data Kind : Type 0 where
  document sequence mapping scalar alias : Kind
  -- the zero of `yaml.Kind`, and any other number
  other : Kind

mutual
  -- Kind, value, line, column and content.
  pub data Node : Type 0 where
    node : Kind → Text → ℕ → ℕ → Nodes → Node

  pub data Nodes : Type 0 where
    nil : Nodes
    cons : Node → Nodes → Nodes

abbrev pub kind_of : Node → Kind
kind_of (node kind value line column content) = kind

abbrev pub value_of : Node → Text
value_of (node kind value line column content) = value

-- `stringKind`
unfoldable pub string_kind : Kind → Text
string_kind alias = codes "alias"
string_kind document = codes "document"
string_kind mapping = codes "mapping"
string_kind scalar = codes "scalar"
string_kind sequence = codes "sequence"
string_kind other = codes "unknown"

pub data Parsed : Type 0 where
  parsed : List Pair → Parsed
  -- "a map expected but got %s node"
  not_a_map : Text → Parsed
  -- "expected scalar node but found %s node", with the line, the column and the value
  not_scalar : Text → ℕ → ℕ → Text → Parsed
  -- an index out of range
  panics : Parsed

abbrev pub is_scalar : Kind → Bool
is_scalar scalar = true
is_scalar _ = false

unfoldable pub refuse : Node → Parsed
unfolding string_kind
refuse (node kind value line column content) = not_scalar (string_kind kind) line column value

abbrev pub add_pair : Pair → Parsed → Parsed
add_pair pair (parsed pairs) = parsed (pair ∷ pairs)
add_pair pair failure = failure

-- The loop over the content, two nodes at a time.
unfoldable pub read_pairs : Nodes → Parsed
unfolding refuse
read_pairs nil = parsed []
read_pairs (cons key nil) = panics
read_pairs (cons key (cons value rest)) =
    let more = read_pairs rest in
    if is_scalar (kind_of key)
    then if is_scalar (kind_of value)
      then add_pair (record { key = value_of key; value = value_of value }) more
      else refuse value
    else refuse key

unfoldable pub new : Node → Parsed
unfolding read_pairs string_kind
new (node kind value line column nil) = parsed []
new (node document value line column (cons first rest)) = new first
new (node mapping value line column (cons first rest)) = read_pairs (cons first rest)
new (node kind value line column (cons first rest)) = not_a_map (string_kind kind)

-- The nodes are scalars, two for each pair: its key and its value.
abbrev pub HasPairs : Nodes → List Pair → Type 0
HasPairs nil [] = Unit
HasPairs nil (pair ∷ pairs) = ⊥
HasPairs (cons key nil) pairs = ⊥
HasPairs (cons key (cons value rest)) [] = ⊥
HasPairs (cons key (cons value rest)) (pair ∷ pairs) =
    (kind_of key ≡ scalar)
    × (kind_of value ≡ scalar)
    × (value_of key ≡ pair.key)
    × (value_of value ≡ pair.value)
    × HasPairs rest pairs

read_pairs_complete :
    (content : Nodes) (pairs : List Pair)
    → HasPairs content pairs
    → read_pairs content ≡ parsed pairs
unfolding read_pairs
read_pairs_complete nil [] h = refl
read_pairs_complete nil (pair ∷ pairs) h = absurd h
read_pairs_complete (cons key nil) pairs h = absurd h
read_pairs_complete (cons key (cons value rest)) [] h = absurd h
read_pairs_complete (cons key (cons value rest)) (pair ∷ pairs) (k, v, x, y, h) =
    rw (k, v, x, y, read_pairs_complete rest pairs h)

add_pair-parsed :
    (pair : Pair) (more : Parsed) (pairs : List Pair)
    → add_pair pair more ≡ parsed pairs
    → (rest : List Pair) × (more ≡ parsed rest) × (pair ∷ rest ≡ pairs)
add_pair-parsed pair (parsed rest) pairs h = (rest, refl, cc h)
add_pair-parsed pair (not_a_map t) pairs h = absurd (cc h)
add_pair-parsed pair (not_scalar t i j u) pairs h = absurd (cc h)
add_pair-parsed pair panics pairs h = absurd (cc h)

read_pairs_sound :
    (content : Nodes) (pairs : List Pair)
    → read_pairs content ≡ parsed pairs
    → HasPairs content pairs
unfolding read_pairs refuse
read_pairs_sound nil [] h = tt
read_pairs_sound nil (pair ∷ pairs) h = absurd (cc h)
read_pairs_sound (cons key nil) pairs h = absurd (cc h)
read_pairs_sound (cons (node scalar x l c n) (cons (node scalar y m d o) rest)) pairs h =
    let content = cons (node scalar x l c n) (cons (node scalar y m d o) rest) in
    let (more, e, same) =
      add_pair-parsed (record { key = x; value = y }) (read_pairs rest) pairs h in
    subst (HasPairs content) same (refl, refl, refl, refl, read_pairs_sound rest more e)
read_pairs_sound (cons (node scalar x l c n) (cons value rest)) pairs h = absurd (cc h)
read_pairs_sound (cons key (cons value rest)) pairs h = absurd (cc h)

-- A node that holds another one first: its value, line and column, and what stands behind it.
pub record Outer : Type 0 where
  pub text : Text
  pub line : ℕ
  pub column : ℕ
  pub behind : Nodes

abbrev pub in_documents : List Outer → Node → Node
in_documents [] inner = inner
in_documents (o ∷ outer) inner =
    node document o.text o.line o.column (cons (in_documents outer inner) o.behind)

-- A mapping, wherever it stands and under any number of documents, is read as a list of pairs exactly
-- where its content is two scalar nodes for each of them, in order: the key's and the value's.
pub new-HasPairs :
    (outer : List Outer) (text : Text) (line column : ℕ) (content : Nodes) (pairs : List Pair)
    → new (in_documents outer (node mapping text line column content)) ≡ parsed pairs
      ↔ HasPairs content pairs
unfolding new
new-HasPairs [] text line column nil pairs =
    (read_pairs_sound nil pairs, read_pairs_complete nil pairs)
new-HasPairs [] text line column (cons first rest) pairs =
    (read_pairs_sound (cons first rest) pairs, read_pairs_complete (cons first rest) pairs)
new-HasPairs (o ∷ outer) text line column content pairs =
    new-HasPairs outer text line column content pairs

abbrev pub append : Nodes → Nodes → Nodes
append nil rest = rest
append (cons first before) rest = cons first (append before rest)

read_pairs_refuses :
    (before : Nodes) (pairs : List Pair) (bad value : Node) (rest : Nodes)
    → HasPairs before pairs
    → is_scalar (kind_of bad) ≡ false
    → read_pairs (append before (cons bad (cons value rest))) ≡ refuse bad
unfolding read_pairs
read_pairs_refuses nil pairs bad value rest has h = rw h
read_pairs_refuses (cons key nil) pairs bad value rest has h = absurd has
read_pairs_refuses (cons key (cons v before)) [] bad value rest has h = absurd has
read_pairs_refuses (cons key (cons v before)) (pair ∷ pairs) (node kind text line column content)
      value rest (k, s, x, y, has) h =
    rw (k, s, read_pairs_refuses before pairs (node kind text line column content) value rest has h)
      refl

-- A key that is no scalar is refused with its kind and place, whatever pairs stand before it and
-- whatever behind it.
pub new_refuses :
    (outer : Outer) (before : Nodes) (pairs : List Pair) (kind : Kind) (text : Text)
    (line column : ℕ) (content : Nodes) (value : Node) (rest : Nodes)
    → HasPairs before pairs
    → is_scalar kind ≡ false
    → new (
        node mapping outer.text outer.line outer.column
          (append before (cons (node kind text line column content) (cons value rest))))
      ≡ not_scalar (string_kind kind) line column text
unfolding new
new_refuses outer nil pairs kind text line column content value rest has h =
    read_pairs_refuses nil pairs (node kind text line column content) value rest has h
new_refuses outer (cons first before) pairs kind text line column content value rest has h =
    read_pairs_refuses (cons first before) pairs (node kind text line column content) value rest has
      h
