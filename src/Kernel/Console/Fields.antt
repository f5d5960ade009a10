-- ===== src/Kernel/Console/Fields.antt =====
-- What kinit's loop reads and writes beside the buffer of its lines.
use cr_ow_s.Base.{
  ℕ, ◌+◌, ◌-◌, ◌/◌, ◌*◌, ◌%◌, ◌^◌, ◌≤◌, ◌<◌, ◌≡◌, ◌⊎◌, inl, inr, refl, ap, ap₂, ◌∙◌, not, ◌||◌,
  List, [], ◌∷◌, arith, ltb, leb, ◌==◌, ◌&&◌, Bool-cases, if_both, if◌then◌else◌,
}
use cr_ow_s.Base.Memory.{Memory}
use cr_ow_s.Kernel.{load32, load64, store32}
use cr_ow_s.Kernel.Init.{Boot, lowest_base, least_length, visit}
use cr_ow_s.Kernel.Init.Entries.{Entry, Listed}
use cr_ow_s.Kernel.Console.{line_bytes, in_memory}
use cr_ow_s.Kernel.Console.Buffer.{Agrees}

load32-same :
    (m m' : Memory) (a : ℕ) → ((b : ℕ) → a ≤ b → b < a + 4 → m' b ≡ m b) → load32 m' a ≡ load32 m a
load32-same m m' a same =
    rw
      (
        same a (omega arith) (omega arith),
        same (a + 1) (omega arith) (omega arith),
        same (a + 2) (omega arith) (omega arith),
        same (a + 3) (omega arith) (omega arith),
      )
      refl

-- A field beside the buffer.
pub load32-Agrees :
    (line : ℕ) (m m' : Memory) (a : ℕ)
    → Agrees line line_bytes m m'
    → (a + 4 ≤ line) ⊎ (line + line_bytes ≤ a)
    → load32 m' a ≡ load32 m a
load32-Agrees line m m' a agree beside =
    load32-same m m' a (λ b from to. agree b (omega (arith, from, to, beside)))

-- The three fields that are read at an entry.
pub record Fields (m : Memory) (p : ℕ) (e : Entry) : Type 0 where
  pub base : load64 m p ≡ e.base
  pub length : load64 m (p + 8) ≡ e.length
  pub type : load32 m (p + 16) ≡ e.type

pub Fields-Agrees :
    (line : ℕ) (m m' : Memory) (p : ℕ) (e : Entry)
    → Agrees line line_bytes m m'
    → (p + 20 ≤ line) ⊎ (line + line_bytes ≤ p)
    → Fields m p e
    → Fields m' p e
Fields-Agrees line m m' p e agree beside f =
    let same : (k : ℕ) → k + 4 ≤ 20 → load32 m' (p + k) ≡ load32 m (p + k) =
      λ k h. load32-Agrees line m m' (p + k) agree (omega (arith, h, beside)) in
    let same' : (k : ℕ) → k + 4 ≤ 12 → load32 m' (p + 8 + k) ≡ load32 m (p + 8 + k) =
      λ k h. load32-Agrees line m m' (p + 8 + k) agree (omega (arith, h, beside)) in
    let first = load32-Agrees line m m' p agree (omega (arith, beside)) in
    record {
      base = ap₂ (λ a b. a + b * 2 ^ 32) first (same 4 (omega arith)) ∙ f.base;
      length =
          ap₂ (λ a b. a + b * 2 ^ 32) (same 8 (omega arith)) (same' 4 (omega arith)) ∙ f.length;
      type = same 16 (omega arith) ∙ f.type;
    }

-- What a round leaves alone: all but the type of its entry.
pub visit-keeps :
    (p : ℕ) (s : Boot) (a : ℕ) → (a < p + 16) ⊎ (p + 20 ≤ a) → (visit p s).memory a ≡ s.memory a
unfolding visit
visit-keeps p s a beside =
    let m = s.memory in
    if_both (λ (b : Boot). b.memory a ≡ m a) (not (s.context.kmem_base == 0)) refl
      (if_both (λ (b : Boot). b.memory a ≡ m a)
        (ltb (load64 m p) lowest_base || not (load32 m (p + 16) == 1)) refl
        (if_both (λ (b : Boot). b.memory a ≡ m a) (ltb (load64 m (p + 8)) least_length) refl
          (ground (arith, beside))))

pub load32-visit :
    (p : ℕ) (s : Boot) (a : ℕ)
    → (a + 4 ≤ p + 16) ⊎ (p + 20 ≤ a)
    → load32 (visit p s).memory a ≡ load32 s.memory a
load32-visit p s a beside =
    load32-same s.memory (visit p s).memory a
      (λ b from to. visit-keeps p s b (omega (arith, from, to, beside)))

-- The entries behind it stay listed.
pub Listed-visit :
    (p : ℕ) (s : Boot) (size q limit : ℕ) (es : List Entry)
    → p + 20 ≤ q
    → Listed s.memory size q limit es
    → Listed (visit p s).memory size q limit es
Listed-visit p s size q limit [] behind l = l
Listed-visit p s size q limit (e ∷ es) behind l =
    let same : (a : ℕ) → q ≤ a → load32 (visit p s).memory a ≡ load32 s.memory a =
      λ a h. load32-visit p s a (omega (arith, h, behind)) in
    (
      ap₂ (λ a b. a + b * 2 ^ 32) (same q (omega arith)) (same (q + 4) (omega arith)) ∙ l.0,
      ap₂ (λ a b. a + b * 2 ^ 32) (same (q + 8) (omega arith)) (same (q + 8 + 4) (omega arith))
          ∙ l.1,
      same (q + 16) (omega arith) ∙ l.2,
      l.3,
      l.4,
      Listed-visit p s size (q + size) limit es (omega (arith, behind)) l.5,
    )

store32-Agrees :
    (line : ℕ) (m m' : Memory) (a v : ℕ)
    → Agrees line line_bytes m m'
    → Agrees line line_bytes (store32 m a v) (store32 m' a v)
store32-Agrees line m m' a v agree b out =
    ap (λ k. if leb a b && ltb b (a + 4) then v / 2 ^ (8 * (b - a)) % 256 else k) (agree b out)

-- A round over a memory that differs in the buffer does the same beside it.
pub record Visits (line p : ℕ) (s : Boot) (m : Memory) : Type 0 where
  pub after : Memory
  pub result : visit p (in_memory s m) ≡ in_memory (visit p s) after
  pub kept : Agrees line line_bytes (visit p s).memory after

pub visit-Visits :
    (line p : ℕ) (s : Boot) (m : Memory) (e : Entry)
    → Agrees line line_bytes s.memory m
    → Fields s.memory p e
    → Fields m p e
    → Visits line p s m
unfolding visit
visit-Visits line p s m e agree f g = elim (Bool-cases (not (s.context.kmem_base == 0))) [
  | inl taken ↦ record { after = m; result = rw taken refl; kept = rw taken agree }
  | inr free ↦ elim (Bool-cases (ltb e.base lowest_base || not (e.type == 1))) [
    | inl unfit ↦ record {
      after = m;
      result = rw (free, f.base, f.type, g.base, g.type, unfit) refl;
      kept = rw (free, f.base, f.type, unfit) agree;
    }
    | inr fit ↦ elim (Bool-cases (ltb e.length least_length)) [
      | inl short ↦ record {
        after = m;
        result = rw (free, f.base, f.type, f.length, g.base, g.type, g.length, fit, short) refl;
        kept = rw (free, f.base, f.type, f.length, fit, short) agree;
      }
      | inr long ↦ record {
        after = store32 m (p + 16) 2;
        result = rw (free, f.base, f.type, f.length, g.base, g.type, g.length, fit, long) refl;
        kept =
            rw (free, f.base, f.type, f.length, fit, long)
              (store32-Agrees line s.memory m (p + 16) 2 agree);
      }
    ]
  ]
]
