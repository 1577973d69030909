-- ===== src/Util/User/Role.antt =====
-- util/user.ts: the roles of a user, as bits.
use genie_cloud.Base.{ℕ, ◌+◌}

abbrev pub admin : ℕ
admin = 1

abbrev pub blog_editor : ℕ
blog_editor = 2

abbrev pub thingpedia_admin : ℕ
thingpedia_admin = 4

abbrev pub trusted_developer : ℕ
trusted_developer = 8

abbrev pub discourse_admin : ℕ
discourse_admin = 16

abbrev pub nlp_admin : ℕ
nlp_admin = 32

-- all privileges
abbrev pub root : ℕ
root = 63

-- all roles that grant access to the /admin hierarchy
abbrev pub all_admin : ℕ
all_admin = 1 + 2 + 4 + 32
