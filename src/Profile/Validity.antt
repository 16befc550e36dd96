-- ===== src/Profile/Validity.antt =====
-- What `InvalidProfileResult` accepts, and what `ParseProfile` guarantees of the numbers.
use tabssh_harmonyos.Prelude.{
  ◌≡◌, ◌≢◌, ◌↔◌, ◌⊎◌, true, [], Option, none, some, arith, Bytes, codes, equal_iff,
}
use tabssh_harmonyos.Prelude.Int.{ℤ, pos, ◌≤ℤ◌, IsInt32}
use tabssh_harmonyos.Json.Find.{int32_or, json_int}
use tabssh_harmonyos.Profile.{ProfileConfig, parse_profile, invalid_profile_result}

-- A profile that a connection can be tried with.
pub record IsValid (p : ProfileConfig) : Type 0 where
  pub has_host : p.host ≢ []
  pub has_username : p.username ≢ []
  pub port_from : pos 1 ≤ℤ p.port
  pub port_to : p.port ≤ℤ pos 65535
  pub method :
      (p.auth_type ≡ codes "password")
      ⊎ ((p.auth_type ≡ codes "privateKey") × (p.private_key_path ≢ []))

invalid_profile_result-IsValid :
    (p : ProfileConfig) → (invalid_profile_result p).ok ≡ true → IsValid p
unfolding invalid_profile_result
invalid_profile_result-IsValid p h =
    ground
      (arith, equal_iff p.auth_type (codes "password"), equal_iff p.auth_type (codes "privateKey"))

names_differ : codes "password" ≢ codes "privateKey"
unfolding codes
names_differ h = cc

IsValid-ok : (p : ProfileConfig) → IsValid p → (invalid_profile_result p).ok ≡ true
unfolding invalid_profile_result
IsValid-ok p v = ground (
  arith,
  names_differ,
  equal_iff p.auth_type (codes "password"),
  equal_iff p.auth_type (codes "privateKey"),
)

-- `InvalidProfileResult` accepts exactly the profiles with a host, a user name, a port from 1 to
-- 65535, and the method "password", or "privateKey" with the path of a key.
pub invalid_profile_result_iff :
    (p : ProfileConfig) → ((invalid_profile_result p).ok ≡ true) ↔ IsValid p
invalid_profile_result_iff p = (invalid_profile_result-IsValid p, IsValid-ok p)

int32_or-IsInt32 : (fallback : ℤ) (o : Option ℤ) → IsInt32 fallback → IsInt32 (int32_or fallback o)
unfolding int32_or
int32_or-IsInt32 fallback none h = h
int32_or-IsInt32 fallback (some value) h = ground arith

json_int-IsInt32 :
    (json key : Bytes) (fallback : ℤ) → IsInt32 fallback → IsInt32 (json_int json key fallback)
unfolding json_int
json_int-IsInt32 json key fallback h = ground (arith, int32_or-IsInt32 fallback)

-- Whatever the text, the numbers of a parsed profile are int32_t values, the keep-alive interval is
-- not negative and the timeout is a second at least; and the text itself is cleared.
pub parse_profile_bounds :
    (json : Bytes)
    → let p = (parse_profile json).0 in
      IsInt32 p.port
      × IsInt32 p.keep_alive_seconds
      × IsInt32 p.timeout_milliseconds
      × (pos 0 ≤ℤ p.keep_alive_seconds)
      × (pos 1000 ≤ℤ p.timeout_milliseconds)
      × ((parse_profile json).1 ≡ [])
unfolding parse_profile
parse_profile_bounds json = ground (
  arith,
  json_int-IsInt32 json (codes "port") (pos 22) (omega arith),
  json_int-IsInt32 json (codes "keepAliveSeconds") (pos 60) (omega arith),
  json_int-IsInt32 json (codes "timeoutMilliseconds") (pos 15000) (omega arith),
)
