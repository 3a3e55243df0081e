-- ===== src/Io/Samples.antt =====
-- A blank terminal, and a kernel with one descriptor open on a node.
use mazuki_os.Base.{◌∷◌, replicate, []}
use mazuki_os.Vfs.State.{FileType, Target, open_as, closed_file, console, vfs_init, zeroed_vfs}
use mazuki_os.Tty.{Tty, null}
use mazuki_os.Io.State.{VfsNode, Kernel}
use mazuki_os.Io.Boot.{booted}

abbrev pub blank_tty : Tty
blank_tty = record {
  vga = record { vga_buffer = replicate 2000 3872; cursor_x = 0; cursor_y = 0; hardware = 0 };
  screen = record {
    framebuffer = 0;
    framebuffer_pitch = 0;
    framebuffer_width = 0;
    framebuffer_height = 0;
    framebuffer_bpp = 32;
    framebuffer_type = 1;
    red_position = 16;
    green_position = 8;
    blue_position = 0;
    red_mask = 8;
    green_mask = 8;
    blue_mask = 8;
    memory = [];
  };
  tty_x = 0;
  tty_y = 0;
  tty_color = 15;
  ansi_state = 0;
  arg1 = 0;
  arg2 = 0;
  ansi_current_arg = null;
}

-- Descriptor 3 holds the node at address 64.
abbrev pub holding_node : VfsNode → Kernel
holding_node n = record (booted blank_tty) {
  vfs = record (vfs_init zeroed_vfs) {
    fd_table =
        console
        ∷ console
        ∷ console
        ∷ open_as FileType.vfs_file (Target.node 64)
        ∷ replicate 28 closed_file;
  };
  nodes = λ a. n;
}
