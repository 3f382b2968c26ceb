-- ===== src/Bridge/Keymap.antt =====
-- The key map of dyaxis/bridge/adb_mouse_bridge.py: ADB scan codes and the names of Linux keys.
use sc_adat_appliance.Base.{ℕ, List, [], ◌∷◌}
use sc_adat_appliance.Base.Text.{Text, codes}

abbrev pub keymap : List (ℕ × Text)
keymap =
    (0x00, codes "KEY_A")
    ∷ (0x01, codes "KEY_S")
    ∷ (0x02, codes "KEY_D")
    ∷ (0x03, codes "KEY_F")
    ∷ (0x04, codes "KEY_H")
    ∷ (0x05, codes "KEY_G")
    ∷ (0x06, codes "KEY_Z")
    ∷ (0x07, codes "KEY_X")
    ∷ (0x08, codes "KEY_C")
    ∷ (0x09, codes "KEY_V")
    ∷ (0x0B, codes "KEY_B")
    ∷ (0x0C, codes "KEY_Q")
    ∷ (0x0D, codes "KEY_W")
    ∷ (0x0E, codes "KEY_E")
    ∷ (0x0F, codes "KEY_R")
    ∷ (0x10, codes "KEY_Y")
    ∷ (0x11, codes "KEY_T")
    ∷ (0x12, codes "KEY_1")
    ∷ (0x13, codes "KEY_2")
    ∷ (0x14, codes "KEY_3")
    ∷ (0x15, codes "KEY_4")
    ∷ (0x16, codes "KEY_6")
    ∷ (0x17, codes "KEY_5")
    ∷ (0x18, codes "KEY_EQUAL")
    ∷ (0x19, codes "KEY_9")
    ∷ (0x1A, codes "KEY_7")
    ∷ (0x1B, codes "KEY_MINUS")
    ∷ (0x1C, codes "KEY_8")
    ∷ (0x1D, codes "KEY_0")
    ∷ (0x1E, codes "KEY_RIGHTBRACE")
    ∷ (0x1F, codes "KEY_O")
    ∷ (0x20, codes "KEY_U")
    ∷ (0x21, codes "KEY_LEFTBRACE")
    ∷ (0x22, codes "KEY_I")
    ∷ (0x23, codes "KEY_P")
    ∷ (0x24, codes "KEY_ENTER")
    ∷ (0x25, codes "KEY_L")
    ∷ (0x26, codes "KEY_J")
    ∷ (0x27, codes "KEY_APOSTROPHE")
    ∷ (0x28, codes "KEY_K")
    ∷ (0x29, codes "KEY_SEMICOLON")
    ∷ (0x2A, codes "KEY_BACKSLASH")
    ∷ (0x2B, codes "KEY_COMMA")
    ∷ (0x2C, codes "KEY_SLASH")
    ∷ (0x2D, codes "KEY_N")
    ∷ (0x2E, codes "KEY_M")
    ∷ (0x2F, codes "KEY_DOT")
    ∷ (0x30, codes "KEY_TAB")
    ∷ (0x31, codes "KEY_SPACE")
    ∷ (0x32, codes "KEY_GRAVE")
    ∷ (0x33, codes "KEY_BACKSPACE")
    ∷ (0x34, codes "KEY_KPENTER")
    ∷ (0x35, codes "KEY_ESC")
    ∷ (0x36, codes "KEY_LEFTCTRL")
    ∷ (0x37, codes "KEY_LEFTMETA")
    ∷ (0x38, codes "KEY_LEFTSHIFT")
    ∷ (0x39, codes "KEY_CAPSLOCK")
    ∷ (0x3A, codes "KEY_LEFTALT")
    ∷ (0x3B, codes "KEY_LEFT")
    ∷ (0x3C, codes "KEY_RIGHT")
    ∷ (0x3D, codes "KEY_DOWN")
    ∷ (0x3E, codes "KEY_UP")
    ∷ (0x41, codes "KEY_KPDOT")
    ∷ (0x43, codes "KEY_KPASTERISK")
    ∷ (0x45, codes "KEY_KPPLUS")
    ∷ (0x47, codes "KEY_NUMLOCK")
    ∷ (0x4B, codes "KEY_KPSLASH")
    ∷ (0x4C, codes "KEY_KPENTER")
    ∷ (0x4E, codes "KEY_KPMINUS")
    ∷ (0x51, codes "KEY_KPEQUAL")
    ∷ (0x52, codes "KEY_KP0")
    ∷ (0x53, codes "KEY_KP1")
    ∷ (0x54, codes "KEY_KP2")
    ∷ (0x55, codes "KEY_KP3")
    ∷ (0x56, codes "KEY_KP4")
    ∷ (0x57, codes "KEY_KP5")
    ∷ (0x58, codes "KEY_KP6")
    ∷ (0x59, codes "KEY_KP7")
    ∷ (0x5B, codes "KEY_KP8")
    ∷ (0x5C, codes "KEY_KP9")
    ∷ (0x60, codes "KEY_F5")
    ∷ (0x61, codes "KEY_F6")
    ∷ (0x62, codes "KEY_F7")
    ∷ (0x63, codes "KEY_F3")
    ∷ (0x64, codes "KEY_F8")
    ∷ (0x65, codes "KEY_F9")
    ∷ (0x6B, codes "KEY_SCROLLLOCK")
    ∷ (0x6D, codes "KEY_F10")
    ∷ (0x6F, codes "KEY_F12")
    ∷ (0x71, codes "KEY_PAUSE")
    ∷ (0x72, codes "KEY_INSERT")
    ∷ (0x73, codes "KEY_HOME")
    ∷ (0x74, codes "KEY_PAGEUP")
    ∷ (0x75, codes "KEY_DELETE")
    ∷ (0x76, codes "KEY_F4")
    ∷ (0x77, codes "KEY_END")
    ∷ (0x78, codes "KEY_F2")
    ∷ (0x79, codes "KEY_PAGEDOWN")
    ∷ (0x7A, codes "KEY_F1")
    ∷ (0x7B, codes "KEY_RIGHTSHIFT")
    ∷ (0x7C, codes "KEY_RIGHTALT")
    ∷ (0x7D, codes "KEY_RIGHTCTRL")
    ∷ (0x7E, codes "KEY_RIGHTMETA")
    ∷ (0x7F, codes "KEY_POWER")
    ∷ []
