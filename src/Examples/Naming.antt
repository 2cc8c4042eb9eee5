-- ===== src/Examples/Naming.antt =====
-- Names of mailboxes, and keys.
use tempmail.Prelude.{◌≡◌, refl}
use tempmail.Text.{Text, codes}
use tempmail.Mailboxes.{sanitize_local_part}
use tempmail.Examples.Fixtures.{ascii}

-- `..A!b.c.` is cleaned to `ab.c`
cleaned : sanitize_local_part (codes "..A!b.c.") ≡ codes "ab.c"
unfolding sanitize_local_part
cleaned = refl
