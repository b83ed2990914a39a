-- ===== src/Reducer/Browser.antt =====
-- What a browser makes of the emissions: the blocks that it shows, and the text that it has.
use auto_reign.Prelude.{
  ℕ, zero, suc, ◌≡◌, refl, ◌∙◌, Bool, true, false, ◌||◌, Option, none, some, List, [], ◌∷◌, ◌++◌,
  Text, arith, get_elem?, set, nat_beq, if◌then◌else◌, ◌==◌, text_key, text_beq, text_beq_iff, inl,
  inr,
}
use auto_reign.Prelude.Options.{◌>>=◌, Option-cases}
use auto_reign.TextOffsets.Laws.{js_length}
use auto_reign.ChatBlocks.{Block, text, tool, block_id}
use auto_reign.Reducer.State.{Emission, chunk, block_created, block_updated}

-- A change of the first block with this id; `none` where there is none, or the change is refused.
pub alter_id : Text → (Block → Option Block) → List Block → Option (List Block)
alter_id id f [] = none
alter_id id f (b ∷ blocks) =
    let later = alter_id id f blocks in
    if id == block_id b then (f b >>= λ c. some (c ∷ blocks)) else (later >>= λ cs. some (b ∷ cs))

-- A chunk is taken only where the block's text has exactly the length that the chunk expects, in
-- the browser's units.
abbrev pub extend_block : ℕ → Text → Block → Option Block
extend_block offset content (text b) =
    if nat_beq offset (js_length b.content)
    then some (text (record b { content = b.content ++ content }))
    else none
extend_block offset content (tool b) = none

unfoldable pub apply_emission : List Block → Emission → Option (List Block)
apply_emission blocks (chunk id block_offset offset content) =
    alter_id id (extend_block block_offset content) blocks
apply_emission blocks (block_created b) = some (blocks ++ b ∷ [])
apply_emission blocks (block_updated b) = alter_id (block_id b) (λ _. some b) blocks

unfoldable pub apply_emissions : List Block → List Emission → Option (List Block)
apply_emissions blocks [] = some blocks
apply_emissions blocks (e ∷ es) = apply_emission blocks e >>= λ bs. apply_emissions bs es

pub apply_emissions-append :
    (blocks : List Block) (es fs : List Emission)
    → apply_emissions blocks (es ++ fs)
      ≡ (apply_emissions blocks es >>= λ bs. apply_emissions bs fs)
unfolding apply_emissions
apply_emissions-append blocks [] fs = refl
apply_emissions-append blocks (e ∷ es) fs =
    elim (apply_emission blocks e)
      as (λ o.
        (o >>= λ bs. apply_emissions bs (es ++ fs))
        ≡ ((o >>= λ bs. apply_emissions bs es) >>= λ bs. apply_emissions bs fs)) [
          | none ↦ refl
          | some bs ↦ apply_emissions-append bs es fs
        ]

-- The answer as a whole: each chunk stands where the text before it ends.
abbrev pub Follows : Text → List Emission → Text → Type 0
Follows sent [] all_text = sent ≡ all_text
Follows sent (chunk id block_offset offset content ∷ es) all_text =
    (offset ≡ js_length sent) × Follows (sent ++ content) es all_text
Follows sent (_ ∷ es) all_text = Follows sent es all_text

abbrev pub uses_id : Text → List Block → Bool
uses_id id [] = false
uses_id id (b ∷ blocks) = id == block_id b || uses_id id blocks

abbrev pub UniqueIds : List Block → Type 0
UniqueIds [] = Unit
UniqueIds (b ∷ blocks) = (uses_id (block_id b) blocks ≡ false) × UniqueIds blocks

uses_id-get :
    (blocks : List Block) (i : ℕ) (b : Block)
    → get_elem? blocks i ≡ some b
    → uses_id (block_id b) blocks ≡ true
uses_id-get [] i b h = cc
uses_id-get (c ∷ blocks) zero b h = ground (arith, text_beq_iff (block_id b) (block_id c))
uses_id-get (c ∷ blocks) (suc i) b h = ground (arith, uses_id-get blocks i b)

-- With unique ids, the block that is found by its id is the one at its index.
pub alter_id-set :
    (blocks : List Block) (i : ℕ) (b : Block) (f : Block → Option Block)
    → UniqueIds blocks
    → get_elem? blocks i ≡ some b
    → alter_id (block_id b) f blocks ≡ (f b >>= λ c. some (set blocks i c))
unfolding alter_id
alter_id-set [] i b f unique h = cc
alter_id-set (c ∷ blocks) zero b f unique h =
    let same : c ≡ b = ground arith in rw (same, (text_beq_iff (block_id b) (block_id b)).1 refl)
alter_id-set (c ∷ blocks) (suc i) b f unique h =
    let differ : text_beq (block_id b) (block_id c) ≡ false =
      ground (arith, uses_id-get blocks i b h, text_beq_iff (block_id b) (block_id c)) in
    rw (differ, alter_id-set blocks i b f unique.1 h)
      (elim (Option-cases (f b)) [ inl e ↦ rw e | inr (d, e) ↦ rw e ])

pub uses_id-set :
    (id : Text) (blocks : List Block) (i : ℕ) (b c : Block)
    → get_elem? blocks i ≡ some b
    → block_id c ≡ block_id b
    → uses_id id (set blocks i c) ≡ uses_id id blocks
uses_id-set id [] i b c h same = refl
uses_id-set id (d ∷ blocks) zero b c h same = ground arith
uses_id-set id (d ∷ blocks) (suc i) b c h same = ground (arith, uses_id-set id blocks i b c)

pub UniqueIds-set :
    (blocks : List Block) (i : ℕ) (b c : Block)
    → get_elem? blocks i ≡ some b
    → block_id c ≡ block_id b
    → UniqueIds blocks
    → UniqueIds (set blocks i c)
UniqueIds-set [] i b c h same unique = tt
UniqueIds-set (d ∷ blocks) zero b c h same unique = ground arith
UniqueIds-set (d ∷ blocks) (suc i) b c h same unique = (
  uses_id-set (block_id d) blocks i b c h same ∙ unique.0,
  UniqueIds-set blocks i b c h same unique.1,
)

pub uses_id-append :
    (id : Text) (blocks : List Block) (b : Block)
    → uses_id id (blocks ++ b ∷ []) ≡ (uses_id id blocks || id == block_id b)
uses_id-append id [] b = ground arith
uses_id-append id (c ∷ blocks) b = ground (arith, uses_id-append id blocks b)

pub UniqueIds-append :
    (blocks : List Block) (b : Block)
    → UniqueIds blocks
    → uses_id (block_id b) blocks ≡ false
    → UniqueIds (blocks ++ b ∷ [])
UniqueIds-append [] b unique unused = (refl, tt)
UniqueIds-append (c ∷ blocks) b unique unused = (
  ground (
    arith,
    uses_id-append (block_id c) blocks b,
    text_beq_iff (block_id b) (block_id c),
    text_beq_iff (block_id c) (block_id b),
  ),
  UniqueIds-append blocks b unique.1 (ground arith),
)
