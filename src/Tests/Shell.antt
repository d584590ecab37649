-- ===== src/Tests/Shell.antt =====
-- Nine characters of output, for a limit of five.
use nan_itself.Base.{◌-◌, ◌≤◌, ◌<◌, ◌<>◌, ◌≡◌, refl, ◌⊎◌, arith, string_eq, nat_eq}
use Prim.Native.String.{count}
use nan_itself.Base.Text.{decimal, take_text}
use nan_itself.Base.Slices.{drop_text}
use nan_itself.Agent.Shell.{
  strip_newlines, format_shell_output, Cut, opening, format_shell_output-Cut,
}

two_le_five : 2 ≤ 5
two_le_five = omega arith

format_shell_output-Cut_example :
    let s = strip_newlines "abcdefghi\n\n" in
    ((count s ≤ 5) × (format_shell_output "abcdefghi\n\n" "0" 5 ≡ opening "0" s))
    ⊎ ((5 < count s)
        × (c : Cut 5 s) × (format_shell_output "abcdefghi\n\n" "0" 5
            ≡ opening "0" (
                c.head
                <> ("\n...[truncated " <> (decimal (count s - 5) <> (" chars]...\n" <> c.tail))))))
format_shell_output-Cut_example = format_shell_output-Cut "abcdefghi\n\n" "0" 5 two_le_five

-- Five characters are left out, and four are reported.
shown :
    format_shell_output "abcdefghi\n\n" "0" 5 ≡ "exit code: 0\nab\n...[truncated 4 chars]...\nhi"
unfolding format_shell_output take_text drop_text decimal string_eq nat_eq
shown = refl
