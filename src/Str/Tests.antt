-- ===== src/Str/Tests.antt =====
-- Runs of the number macros of src/str.h.
use libhelp.Base.{
  starts_with, take, drop, ◌++◌, ◌∷◌, ◌≡◌, refl, none, some, [], Bytes, codes, arith,
}
use libhelp.Str.{atoui, atoui_int, itoa, itoa64}
use libhelp.Str.Append.{strcatpd, strcatpd_all, strcatpd_all-concat, to_lower, to_upper}
use libhelp.Str.Compare.{strcmp_n, strcmp_n-starts_with}
use libhelp.Str.RoundTrip.{Prints, atoui-itoa}

prints : itoa (codes "v=") 4096 ≡ some (codes "v=4096")
unfolding itoa
prints = refl

prints64 :
    itoa64 (codes "ABCDEFGHIJKLMNOPQRSTUVWXYZabcdefghijklmnopqrstuvwxyz0123456789+/") [] 4096
    ≡ some (codes "BAA")
unfolding itoa64
prints64 = refl

stops_at_a_letter : atoui 0 (codes "12x3") ≡ 12
unfolding atoui
stops_at_a_letter = refl

wraps : atoui 0 (codes "4294967298") ≡ 2
unfolding atoui
wraps = refl

overflows : atoui_int 0 (codes "2147483648") ≡ none
unfolding atoui_int
overflows = refl

atoui-itoa_example :
    (out : Bytes) × (itoa (codes "v=") 4096 ≡ some out) × Prints (codes "v=") 4096 out
atoui-itoa_example = atoui-itoa (codes "v=") 4096 (omega arith)

strcmp_n-starts_with_example :
    strcmp_n 3 4 (codes "GET /a" ++ (0 ∷ [])) (codes "/a?" ++ (0 ∷ []))
    ≡ some (starts_with (take 3 (codes "/a?")) (drop 4 (codes "GET /a")))
strcmp_n-starts_with_example =
    strcmp_n-starts_with 3 4 (codes "GET /a") (codes "/a?") (omega arith) (omega arith)
      (refl, (refl, (refl, (refl, (refl, (refl, tt)))))) (refl, (refl, (refl, tt)))

-- the fourth comparison of two strings of two bytes reads behind their NULs
reads_behind : strcmp_n 4 0 (codes "ab" ++ (0 ∷ [])) (codes "ab" ++ (0 ∷ [])) ≡ none
unfolding strcmp_n
reads_behind = refl

-- `/a` and `.c` behind `src` in an array of 8 bytes
appends :
    strcatpd_all (codes "/a" ∷ codes ".c" ∷ []) 3 (codes "src-----") ≡ some (7, codes "src/a.c-")
unfolding strcatpd_all strcatpd
appends = refl

-- a third string does not fit, and `memcpy` writes behind the array
no_room : strcatpd_all (codes "/a" ∷ codes ".c" ∷ codes "pp" ∷ []) 3 (codes "src-----") ≡ none
unfolding strcatpd_all strcatpd
no_room = refl

-- the letters only: the bytes next to them stay
letters : to_lower b'Q' ≡ b'q'
unfolding to_lower
letters = refl

no_letter : to_upper b'{' ≡ b'{'
unfolding to_upper
no_letter = refl

strcatpd_all-concat_example :
    strcatpd_all (codes "/a" ∷ codes ".c" ∷ []) 3 (codes "src-----")
    ≡ some (7, codes "src" ++ codes "/a.c" ++ codes "-")
strcatpd_all-concat_example =
    strcatpd_all-concat (codes "/a" ∷ codes ".c" ∷ []) (codes "src") (codes "-----") (omega arith)
