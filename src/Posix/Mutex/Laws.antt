-- ===== src/Posix/Mutex/Laws.antt =====
-- The attributes of a mutex as a client writes them, and the settings that come out.
use libosal.Prelude.{
  ℕ, ◌+◌, ◌*◌, ◌/◌, ◌%◌, ◌^◌, ◌<◌, ◌≡◌, refl, Bool, true, false, Option, none, some, arith, ◌==◌,
  if◌then◌else◌, ap, ◌∙◌,
}
use libosal.Posix.Mutex.{Kind, Protocol, kind_of, protocol_of, mutex_settings}

-- The value of OSAL_MUTEX_ATTR__TYPE_ and OSAL_MUTEX_ATTR__PROTOCOL_ for each, before the shift.
abbrev kind_bits : Kind → ℕ
kind_bits Kind.normal = 0
kind_bits Kind.errorcheck = 1
kind_bits Kind.recursive = 2

abbrev protocol_bits : Protocol → ℕ
protocol_bits Protocol.no_protocol = 0
protocol_bits Protocol.inherit = 1
protocol_bits Protocol.protect = 2

abbrev bit : Bool → ℕ
bit true = 1
bit false = 0

-- The attributes that a client puts together.
abbrev pub attributes : Kind → Bool → Bool → Protocol → ℕ → ℕ
attributes kind robust shared protocol ceiling =
    kind_bits kind
    + 16 * bit robust
    + 32 * bit shared
    + 256 * protocol_bits protocol
    + 2 ^ 16 * ceiling

abbrev nonzero : ℕ → Option ℕ
nonzero n = if n == 0 then none else some n

kind_lem : (k : Kind) → (kind_of (kind_bits k) ≡ some k) × (kind_bits k < 3)
kind_lem Kind.normal = (refl, omega arith)
kind_lem Kind.errorcheck = (refl, omega arith)
kind_lem Kind.recursive = (refl, omega arith)

protocol_lem : (p : Protocol) → (protocol_of (protocol_bits p) ≡ some p) × (protocol_bits p < 3)
protocol_lem Protocol.no_protocol = (refl, omega arith)
protocol_lem Protocol.inherit = (refl, omega arith)
protocol_lem Protocol.protect = (refl, omega arith)

bit_lem : (b : Bool) → ((bit b == 1) ≡ b) × (bit b < 2)
bit_lem true = (refl, omega arith)
bit_lem false = (refl, omega arith)

-- osal_mutex_init finds in the attributes what a client put there: the type, the two flags, the
-- protocol and a priority ceiling below 2^16, of which 0 stands for none.
pub mutex_settings-attributes :
    (kind : Kind) (robust shared : Bool) (protocol : Protocol) (ceiling : ℕ)
    → ceiling < 2 ^ 16
    → mutex_settings (attributes kind robust shared protocol ceiling) ≡ record {
      kind = some kind;
      robust = robust;
      process_shared = shared;
      protocol = some protocol;
      prioceiling = nonzero ceiling;
    }
unfolding mutex_settings
mutex_settings-attributes kind robust shared protocol ceiling h =
    let attr = attributes kind robust shared protocol ceiling in
    let k = kind_lem kind in
    let r = bit_lem robust in
    let s = bit_lem shared in
    let p = protocol_lem protocol in
    let e₁ : attr % 4 ≡ kind_bits kind = omega (arith, k, r, s, p) in
    let e₂ : attr / 16 % 2 ≡ bit robust = omega (arith, k, r, s, p) in
    let e₃ : attr / 32 % 2 ≡ bit shared = omega (arith, k, r, s, p) in
    let e₄ : attr / 256 % 4 ≡ protocol_bits protocol = omega (arith, k, r, s, p) in
    let e₅ : attr / 2 ^ 16 % 2 ^ 16 ≡ ceiling = omega (arith, k, r, s, p) in
    let kinds : kind_of (attr % 4) ≡ some kind = ap kind_of e₁ ∙ k.0 in
    let robusts : (attr / 16 % 2 == 1) ≡ robust = ap (λ b. b == 1) e₂ ∙ r.0 in
    let shareds : (attr / 32 % 2 == 1) ≡ shared = ap (λ b. b == 1) e₃ ∙ s.0 in
    let protocols : protocol_of (attr / 256 % 4) ≡ some protocol = ap protocol_of e₄ ∙ p.0 in
    let ceilings : nonzero (attr / 2 ^ 16 % 2 ^ 16) ≡ nonzero ceiling = ap nonzero e₅ in
    λ i. record {
      kind = kinds i;
      robust = robusts i;
      process_shared = shareds i;
      protocol = protocols i;
      prioceiling = ceilings i;
    }
