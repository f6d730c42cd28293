-- ===== src/Hpack/TableState/Fit.antt =====
-- The entries that stay: the longest prefix whose size is within a limit (RFC 7541, 4.3 and 4.4).
use my_simple_c_http_server.Prelude.{
  ℕ, length, ◌+◌, ◌-◌, ◌≤◌, ◌<◌, ◌≡◌, refl, List, [], ◌∷◌, ◌++◌, leb, if◌then◌else◌, arith,
}
use my_simple_c_http_server.Hpack.Types.{HpackHeaderDynamicEntry}
use my_simple_c_http_server.Hpack.TableState.{get_dynamic_entry_size, total_size}

pub fit : ℕ → List HpackHeaderDynamicEntry → List HpackHeaderDynamicEntry
fit limit [] = []
fit limit (e ∷ es) =
    if leb (get_dynamic_entry_size e) limit
    then e ∷ fit (limit - get_dynamic_entry_size e) es
    else []

pub fit_all :
    (limit : ℕ) (es : List HpackHeaderDynamicEntry) → total_size es ≤ limit → fit limit es ≡ es
unfolding fit
fit_all limit [] h = refl
fit_all limit (e ∷ es) h = ground (arith, fit_all (limit - get_dynamic_entry_size e) es)

pub total_size-fit :
    (limit : ℕ) (es : List HpackHeaderDynamicEntry) → total_size (fit limit es) ≤ limit
unfolding fit
total_size-fit limit [] = omega arith
total_size-fit limit (e ∷ es) = ground (arith, total_size-fit (limit - get_dynamic_entry_size e) es)

-- The last entry of a list that is too large does not stay.
pub fit-append :
    (limit : ℕ) (es : List HpackHeaderDynamicEntry) (e : HpackHeaderDynamicEntry)
    → limit < total_size (es ++ e ∷ [])
    → fit limit (es ++ e ∷ []) ≡ fit limit es
unfolding fit
fit-append limit [] e h = ground arith
fit-append limit (d ∷ es) e h = ground (arith, fit-append (limit - get_dynamic_entry_size d) es e)

pub total_size-append :
    (es : List HpackHeaderDynamicEntry) (e : HpackHeaderDynamicEntry)
    → total_size (es ++ e ∷ []) ≡ total_size es + get_dynamic_entry_size e
total_size-append [] e = omega arith
total_size-append (d ∷ es) e = omega (arith, total_size-append es e)

pub length-fit : (limit : ℕ) (es : List HpackHeaderDynamicEntry) → length (fit limit es) ≤ length es
unfolding fit
length-fit limit [] = omega arith
length-fit limit (e ∷ es) = ground (arith, length-fit (limit - get_dynamic_entry_size e) es)
